-- ===== src/Etcd/Version.antt =====
-- `readEtcdVersion`, `writeEtcdEnvironment` and `getBaseEtcdDir` of tool/planet/etcd.go, and the
-- constants of tool/planet/constants.go that they use.
pub mod Reading
pub mod RoundTrip
use planet.Base.{
  Bool, not, none, some, List, [], ◌∷◌, ◌++◌, if◌then◌else◌, Text, codes, text_eq, is_empty,
}
use planet.Strings.{cut, join, pieces, scan_lines}
use planet.Trace.{not_found, Result, ok, err, Exec, pure, ◌>>=◌, ◌>>◌}
use planet.Os.{Disk, open_file, read, mkdir_all, create, write}

abbrev pub version_name : Text
version_name = codes "PLANET_ETCD_VERSION"

abbrev pub prev_version_name : Text
prev_version_name = codes "PLANET_ETCD_PREV_VERSION"

abbrev pub backend_name : Text
backend_name = codes "KUBE_STORAGE_BACKEND"

abbrev pub assume_version : Text
assume_version = codes "v2.3.8"

abbrev pub store_base : Text
store_base = codes "/ext/etcd"

abbrev pub current_version_file : Text
current_version_file = codes "/ext/etcd/etcd-version.txt"

abbrev pub release_file : Text
release_file = codes "/etc/planet-release"

-- The current version and the one before it; the empty string stands for none.
pub record Versions : Type 0 where
  pub current : Text
  pub prev : Text

-- One line of the file: the last setting of a name counts, other lines are skipped.
unfoldable pub scan_line : Versions → Text → Versions
scan_line vs line = elim (cut b'=' line) [
  | none ↦ vs
  | some (name, value) ↦
      if text_eq name version_name
      then record vs { current = value }
      else if text_eq name prev_version_name
      then record vs { prev = value }
      else vs
]

unfoldable pub scan_version : Versions → List Text → Versions
unfolding scan_line
scan_version vs [] = vs
scan_version vs (line ∷ rest) = scan_version (scan_line vs line) rest

abbrev pub no_versions : Versions
no_versions = record { current = []; prev = [] }

-- What the file's text says, if it names a current version.
unfoldable pub parse_version : Text → Result Versions
unfolding scan_version scan_lines
parse_version t =
    let vs = scan_version no_versions (scan_lines t).0 in
    if is_empty vs.current then err not_found else ok vs

-- An error of the scanner is not looked at: what was read up to there counts.
unfoldable pub read_version : Text → Exec Disk Versions
unfolding open_file read
read_version path = do t ← open_file path; r ← read t; λ d. (parse_version r.0, d)

abbrev init_pieces : Text → List Text → List Text
init_pieces w [] = []
init_pieces w (x ∷ xs) = w ∷ init_pieces x xs

-- `filepath.Dir` of a clean path that holds a slash behind its first byte.
unfoldable pub dir : Text → Text
unfolding pieces join
dir path = join (codes "/") (init_pieces (pieces b'/' path).0 (pieces b'/' path).1)

abbrev pub setting : Text → Text → Text
setting name value = name ++ (codes "=" ++ (value ++ codes "\n"))

abbrev pub backend_of : Text → Text
backend_of version = if text_eq version assume_version then codes "etcd2" else codes "etcd3"

abbrev pub when : Bool → Exec Disk (Unit {0}) → Exec Disk (Unit {0})
when b m = if b then m else pure tt

unfoldable pub write_environment : Text → Text → Text → Exec Disk (Unit {0})
unfolding mkdir_all create write dir
write_environment path version prev = do
  mkdir_all (dir path)
  create path
  when (not (text_eq version assume_version)) (write path (setting version_name version))
  when (not (is_empty prev)) (write path (setting prev_version_name prev))
  write path (setting backend_name (backend_of version))

-- `filepath.Join` of two clean paths. What it makes of a version with `..`, a doubled slash or a slash at
-- its end is not modelled: such a name stays as it is.
abbrev pub join_path : Text → Text → Text
join_path p [] = p
join_path p (c ∷ cs) = p ++ (codes "/" ++ (c ∷ cs))

unfoldable pub base_dir : Text → Text
base_dir version =
    if not (text_eq version assume_version) then join_path store_base version else store_base
