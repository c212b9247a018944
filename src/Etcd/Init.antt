-- ===== src/Etcd/Init.antt =====
-- `etcdInit` of tool/planet/etcd.go: which version of etcd runs, and the links to it.
pub mod Links
pub mod Start
use planet.Etcd.Version.{
  store_base, base_dir, assume_version, current_version_file, release_file, Versions,
  write_environment, read_version,
}
use planet.Os.{Disk, symlink, mkdir_all, stat, remove}
use planet.Trace.{
  already_exists, raise, is_not_found, err, ok, pure, Result, Exec, attempt, ◌>>=◌, ◌>>◌,
}
use planet.Start.Required.{chown_dir}
use planet.Base.{Bool, false, List, [], ◌∷◌, ◌++◌, if◌then◌else◌, Text, codes}

abbrev pub member_data : Text
member_data = codes "/ext/etcd/member"

abbrev pub etcd_path : Text
etcd_path = codes "/usr/bin/etcd"

abbrev pub etcdctl_path : Text
etcdctl_path = codes "/usr/bin/etcdctl-cmd"

abbrev pub binaries : List Text
binaries = etcd_path ∷ etcdctl_path ∷ []

abbrev is_absent : Result (Unit {0}) → Bool
is_absent (ok _) = false
is_absent (err e) = is_not_found e

-- A new installation takes the desired version and records it; data with no version file is of the
-- assumed version. Only an answer that nothing is there counts as a new installation.
unfoldable pub choose_version : Text → Exec Disk Text
unfolding stat write_environment
choose_version desired = do
  there ← attempt (stat member_data)
  if is_absent there
      then (do write_environment current_version_file desired []; pure desired)
      else pure assume_version

abbrev pub version_or : Result Versions → Exec Disk Text → Exec Disk Text
version_or (ok vs) m = pure vs.current
version_or (err e) m = if is_not_found e then m else raise e

-- The removal may fail.
unfoldable pub link_binaries : Text → List Text → Exec Disk (Unit {0})
link_binaries version [] = pure tt
link_binaries version (p ∷ ps) = do
  attempt (remove p)
  symlink (p ++ (codes "-" ++ version)) p
  link_binaries version ps

-- `os.MkdirAll`, whose error that something is there is passed over.
abbrev unless_exists : Result (Unit {0}) → Result (Unit {0})
unless_exists (ok _) = ok tt
unless_exists (err already_exists) = ok tt
unless_exists (err e) = err e

unfoldable pub unless_there : Exec Disk (Unit {0}) → Exec Disk (Unit {0})
unless_there m d = let (r, d') = m d in (unless_exists r, d')

-- From the chosen version on. `under` stands for the paths below a directory.
unfoldable pub run_version : (Text → List Text) → Text → Exec Disk (Unit {0})
unfolding chown_dir
run_version under version = do
  link_binaries version binaries
  unless_there (mkdir_all (base_dir version))
  stat store_base
  chown_dir under (base_dir version)

unfoldable pub init : (Text → List Text) → Exec Disk (Unit {0})
init under = do
  desired ← read_version release_file
  found ← attempt (read_version current_version_file)
  version ← version_or found (choose_version desired.current)
  run_version under version
