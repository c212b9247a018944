-- ===== src/Check/Kernel.antt =====
-- lib/check/check.go: filesystems that the kernel knows, and its version.
use planet.Strings.{scan_lines, contains}
use planet.Trace.{system, ok, err, Result}
use planet.Base.{
  ℕ, ◌+◌, ◌*◌, Bool, true, false, Option, none, some, List, [], ◌∷◌, ◌==◌, if◌then◌else◌, Text,
}

-- How a run of `modprobe` ends.
pub data Probe : Type 0 where
  loaded missing_command failed : Probe

unfoldable pub any_contains : Text → List Text → Bool
unfolding contains
any_contains fs [] = false
any_contains fs (l ∷ ls) = if contains fs l then true else any_contains fs ls

-- `findFS`, with what opening /proc/filesystems gives. The scanner's error is not looked at.
unfoldable pub find_fs : Text → Result Text → Result Bool
unfolding any_contains scan_lines
find_fs fs (err e) = err e
find_fs fs (ok text) = ok (any_contains fs (scan_lines text).0)

-- `CheckFS`
unfoldable pub check_fs : Text → Probe → Result Text → Result Bool
unfolding find_fs
check_fs fs failed opened = ok false
check_fs fs loaded opened = find_fs fs opened
check_fs fs missing_command opened = find_fs fs opened

-- The bytes before the first 0, which is where a C string ends.
unfoldable pub c_string : Text → Text
c_string [] = []
c_string (b ∷ bs) = if b == 0 then [] else b ∷ c_string bs

-- `KernelVersion`, where `scan` is `fmt.Sscanf` with two numbers and a point between them.
unfoldable pub kernel_version : (Text → Option (ℕ × ℕ)) → Result Text → Result ℕ
unfolding c_string
kernel_version scan (err e) = err e
kernel_version scan (ok release) = elim (scan (c_string release)) [
  | none ↦ err (system 0)
  | some (kernel, major) ↦ ok (kernel * 100 + major)
]
