-- ===== src/Box/Files.antt =====
-- The files that lib/box/srv.go places in the container before its start, and its check of a path. `parent`
-- stands for Go's `filepath.Dir`, `absolute` for `filepath.Abs`.
use planet.Trace.{lift, bad_parameter, pure, raise, Result, Exec, ◌>>=◌, ◌>>◌}
use planet.Os.{create, mkdir_all, change_mode, Disk, write, stat}
use planet.Base.{Bool, true, false, not, ◌&&◌, if◌then◌else◌, Text, is_empty}

-- `File`: the path, what the reader yields, whether the mode is not 0, and whether owners are set.
pub record File : Type 0 where
  pub path : Text
  pub contents : Text
  pub has_mode : Bool
  pub has_owners : Bool

abbrev if_set : Bool → Exec Disk (Unit {0}) → Exec Disk (Unit {0})
if_set true m = m
if_set false m = pure tt

-- The path is under the root of the container. Modes and owners are not kept.
unfoldable pub write_file : (Text → Text) → Text → File → Exec Disk (Unit {0})
unfolding write change_mode
write_file parent path fi = do
  mkdir_all (parent path)
  create path
  write path fi.contents
  if_set fi.has_mode (change_mode path)
  if_set fi.has_owners (change_mode path)

-- The absolute path, where it is there and executable when it must be.
unfoldable pub check_path : (Text → Result Text) → (Text → Bool) → Text → Bool → Exec Disk Text
unfolding stat
check_path absolute is_executable path executable =
    if is_empty path then raise bad_parameter else (do
      abs_path ← lift (absolute path)
      stat abs_path
      if executable && not (is_executable abs_path) then raise bad_parameter else pure abs_path)
