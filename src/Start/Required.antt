-- ===== src/Start/Required.antt =====
-- `checkRequiredMounts` and `chownDir` of tool/planet/start.go. `clean` stands for Go's `filepath.Clean`,
-- `under` for the paths that `filepath.Walk` visits below a directory, and `btrfs` for
-- `check.IsBtrfsVolume`, whose error counts as no.
pub mod Present
use planet.Trace.{bad_parameter, attempt, err, lift, pure, ok, Result, Exec, ◌>>=◌, ◌>>◌}
use planet.Box.Mounts.{Mounts, Mount}
use planet.Os.{Disk, remove, change_mode}
use planet.Base.{
  Bool, true, false, ◌&&◌, ◌||◌, List, [], ◌∷◌, ◌++◌, if◌then◌else◌, Text, codes, text_eq,
}

abbrev pub etcd_work_dir : Text
etcd_work_dir = codes "/ext/etcd"

abbrev pub docker_work_dir : Text
docker_work_dir = codes "/ext/docker"

abbrev pub registry_work_dir : Text
registry_work_dir = codes "/ext/registry"

unfoldable pub chown_all : List Text → Exec Disk (Unit {0})
unfolding change_mode
chown_all [] = pure tt
chown_all (p ∷ ps) = do change_mode p; chown_all ps

unfoldable pub chown_dir : (Text → List Text) → Text → Exec Disk (Unit {0})
unfolding change_mode
chown_dir under dir = do change_mode dir; chown_all (under dir)

-- `path.Join(src, "latest")` for a source that is a clean path.
abbrev latest : Text → Text
latest src = src ++ codes "/latest"

-- The mount of the etcd directory: a stale link goes, and the directory is given to the service user.
unfoldable pub claim_etcd : (Text → List Text) → Text → Exec Disk (Unit {0})
unfolding remove
claim_etcd under src = do attempt (remove (latest src)); chown_dir under src

-- Which of the directories have a mount, and the storage driver of docker.
pub record Seen : Type 0 where
  pub etcd : Bool
  pub docker : Bool
  pub registry : Bool
  pub docker_backend : Text

unfoldable pub see : (Text → Text) → (Text → Bool) → Mount → Seen → Seen
unfolding text_eq
see clean btrfs m s =
    let dst = clean m.dst in
    record {
      etcd = s.etcd || text_eq dst etcd_work_dir;
      docker = s.docker || text_eq dst docker_work_dir;
      registry = s.registry || text_eq dst registry_work_dir;
      docker_backend =
          if text_eq dst docker_work_dir && btrfs m.src then codes "btrfs" else s.docker_backend;
    }

abbrev pub claim_when : Bool → Exec Disk (Unit {0}) → Exec Disk (Unit {0})
claim_when true m = m
claim_when false m = pure tt

unfoldable pub scan_mounts :
    (Text → Text) → (Text → List Text) → (Text → Bool) → Mounts → Seen → Exec Disk Seen
unfolding see text_eq
scan_mounts clean under btrfs [] s = pure s
scan_mounts clean under btrfs (m ∷ ms) s = do
  claim_when (text_eq (clean m.dst) etcd_work_dir) (claim_etcd under m.src)
  scan_mounts clean under btrfs ms (see clean btrfs m s)

abbrev pub nothing_seen : Text → Seen
nothing_seen backend = record {
  etcd = false;
  docker = false;
  registry = false;
  docker_backend = backend;
}

abbrev pub all_seen : Seen → Result Text
all_seen s = if s.etcd && s.docker && s.registry then ok s.docker_backend else err bad_parameter

-- The storage driver that the configuration has afterwards.
unfoldable pub check_required_mounts :
    (Text → Text) → (Text → List Text) → (Text → Bool) → Text → Mounts → Exec Disk Text
check_required_mounts clean under btrfs backend mounts = do
  s ← scan_mounts clean under btrfs mounts (nothing_seen backend)
  lift (all_seen s)
