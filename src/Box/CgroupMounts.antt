-- ===== src/Box/CgroupMounts.antt =====
-- lib/box/cgroups_linux.go: the cgroup filesystems that the container needs. `cgroot` is the path of
-- /sys/fs/cgroup below the root and `at` puts a group behind it, as Go's `filepath.Join` does; a Go map
-- is the list of its entries in the order of one iteration.
pub mod Presence
use planet.Trace.{system, err, lift, pure, attempt, Error, ok, Exec, Result, ◌>>=◌, ◌>>◌}
use planet.Strings.{split, fields, scan_lines, words, has_prefix, has_text}
use planet.Check.Filesystems.{lookup, Mounted}
use planet.Strings.Atoi.{all_digits}
use planet.Os.{mkdir_all, symlink, Disk}
use planet.Strings.Decimal.{value_from}
use planet.Base.{
  ℕ, Bool, true, false, not, ◌&&◌, Option, none, some, List, [], ◌∷◌, ◌==◌, if◌then◌else◌, Text,
  codes, text_eq, is_empty,
}

-- Behind `cgroot`: a mount, or a link to another group.
pub data Target : Type 0 where
  own_mount : Target
  link_to : Text → Target

abbrev pub required_set : List Text
required_set = codes "blkio" ∷ codes "cpu" ∷ codes "cpuacct" ∷ codes "cpuset" ∷ codes "devices" ∷ []

abbrev pub expected_set : List (Text × Target)
expected_set =
    (codes "blkio", own_mount)
    ∷ (codes "cpu,cpuacct", own_mount)
    ∷ (codes "cpuset", own_mount)
    ∷ (codes "devices", own_mount)
    ∷ (codes "freezer", own_mount)
    ∷ (codes "memory", own_mount)
    ∷ (codes "net_cls,net_prio", own_mount)
    ∷ (codes "perf_event", own_mount)
    ∷ (codes "net_prio", link_to (codes "net_cls,net_prio"))
    ∷ (codes "net_cls", link_to (codes "net_cls,net_prio"))
    ∷ (codes "cpu", link_to (codes "cpu,cpuacct"))
    ∷ (codes "cpuacct", link_to (codes "cpu,cpuacct"))
    ∷ []

abbrev is_number : Text → Bool
is_number w = not (is_empty w) && all_digits w

-- The numbers of a line; what is not read keeps the value of the line before. A number is digits alone.
unfoldable scan_enabled : ℕ → List Text → ℕ
unfolding all_digits value_from
scan_enabled enabled (hierarchy ∷ num ∷ last ∷ _) =
    if is_number hierarchy && is_number num && is_number last then value_from 0 last else enabled
scan_enabled enabled _ = enabled

-- `fmt.Sscanf(line, "%s %d %d %d", …)`, of which the first and the last value are used.
unfoldable pub scan_line : Text × ℕ → Text → Text × ℕ
unfolding words scan_enabled
scan_line (controller, enabled) line = elim (fields line) [
  | [] ↦ (controller, enabled)
  | name ∷ numbers ↦ (name, scan_enabled enabled numbers)
]

unfoldable pub scan_cgroups : Text × ℕ → List Text → List Text
unfolding has_prefix scan_line
scan_cgroups before [] = []
scan_cgroups before (line ∷ lines) =
    let after = scan_line before line in
    let rest = scan_cgroups after lines in
    if has_prefix (codes "#") line
    then scan_cgroups before lines
    else if after.1 == 1
    then after.0 ∷ rest
    else rest

-- `parseHostCgroups`, from what /proc/cgroups opens with.
unfoldable pub parse_host_cgroups : Result Text → Result (List Text)
unfolding scan_lines scan_cgroups
parse_host_cgroups (err e) = err e
parse_host_cgroups (ok text) =
    if (scan_lines text).1 then err (system 3) else ok (scan_cgroups ([], 0) (scan_lines text).0)

unfoldable pub all_found : List Text → List Text → Bool
unfolding has_text
all_found found [] = true
all_found found (group ∷ groups) = has_text group found && all_found found groups

-- `strings.Trim(s, "/")`
unfoldable trim_start : Text → Text
trim_start [] = []
trim_start (c ∷ cs) = if c == b'/' then trim_start cs else c ∷ cs

unfoldable trim_end : Text → Text
trim_end [] = []
trim_end (c ∷ cs) = let rest = trim_end cs in if is_empty rest && c == b'/' then [] else c ∷ rest

-- The directory that `filepath.Split` yields: up to the last slash.
unfoldable directory_of : Text → Text
directory_of [] = []
directory_of (c ∷ cs) =
    let rest = directory_of cs in if is_empty rest && not (c == b'/') then [] else c ∷ rest

abbrev trim : Text → Text
trim s = trim_end (trim_start s)

-- A cgroup that is mounted elsewhere is an error.
unfoldable pub check_for_conflicts : Text → List Mounted → Result (Unit {0})
unfolding trim_start trim_end directory_of text_eq
check_for_conflicts cgroot [] = ok tt
check_for_conflicts cgroot (m ∷ ms) =
    let rest = check_for_conflicts cgroot ms in
    if not (text_eq m.fs (codes "cgroup"))
    then rest
    else if not (text_eq (trim (directory_of m.point)) (trim cgroot))
    then err (system 0)
    else rest

-- The disk, the targets mounted so far, and the answers of the mounts to come; past their end every
-- mount succeeds.
pub record MountHost : Type 0 where
  pub disk : Disk
  pub mounted : List Text
  pub refusals : List (Option Error)

abbrev pub on_disk : Exec Disk (Unit {0}) → Exec MountHost (Unit {0})
on_disk m h = let (r, d) = m h.disk in (r, record h { disk = d })

-- `syscall.Mount`
unfoldable pub mount : Text → Exec MountHost (Unit {0})
mount target h = elim h.refusals [
  | [] ↦ (ok tt, record h { mounted = target ∷ h.mounted })
  | none ∷ rest ↦ (ok tt, record h { mounted = target ∷ h.mounted; refusals = rest })
  | some e ∷ rest ↦ (err e, record h { refusals = rest })
]

-- `mountCgroupFS`, and a group: what the table of mounts knows is left alone.
unfoldable pub mount_unless_there : List Mounted → Text → Exec MountHost (Unit {0})
unfolding lookup
mount_unless_there mounts target =
    if not (is_empty (lookup mounts target))
    then pure tt
    else (do on_disk (mkdir_all target); mount target)

abbrev unless_exists : Result (Unit {0}) → Result (Unit {0})
unless_exists (ok _) = ok tt
unless_exists (err Error.already_exists) = ok tt
unless_exists (err e) = err e

unfoldable pub link_group : Text → Text → Exec MountHost (Unit {0})
unfolding symlink
link_group target path = do
  made ← attempt (on_disk (symlink target path))
  lift (unless_exists made)

-- One turn of the loop.
unfoldable pub mount_group :
    (Text → Text) → List Text → List Mounted → Text × Target → Exec MountHost (Unit {0})
unfolding all_found
mount_group at found mounts (group, target) =
    if not (all_found found (split b',' group)) then pure tt else elim target [
      | own_mount ↦ mount_unless_there mounts (at group)
      | link_to other ↦ link_group other (at group)
    ]

unfoldable pub mount_groups :
    (Text → Text) → List Text → List Mounted → List (Text × Target) → Exec MountHost (Unit {0})
mount_groups at found mounts [] = pure tt
mount_groups at found mounts (g ∷ gs) = do
  mount_group at found mounts g
  mount_groups at found mounts gs

abbrev pub when_required : Bool → Result (Unit {0})
when_required true = ok tt
when_required false = err (system 0)

-- `MountCgroups`, from what /proc/cgroups and the table of mounts give; `groups` is the expected set in the
-- order of the iteration.
unfoldable pub mount_cgroups :
    (Text → Text)
    → Text
    → Result Text
    → Result (List Mounted)
    → List (Text × Target)
    → Exec MountHost (Unit {0})
mount_cgroups at cgroot cgroups table groups = do
  found ← lift (parse_host_cgroups cgroups)
  lift (when_required (all_found found required_set))
  mounts ← lift table
  lift (check_for_conflicts cgroot mounts)
  mount_unless_there mounts cgroot
  mount_groups at found mounts groups
