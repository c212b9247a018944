-- ===== src/Check/Filesystems.antt =====
-- lib/check/filesystems.go: the table of mounts, and the filesystem that a directory lies on. A Go map
-- is the list of its entries in the order of one iteration.
pub mod Longest
use planet.Strings.{fields, words, scan_lines, has_prefix}
use planet.Trace.{ok, err, system, Result, Error}
use planet.Base.{
  Bool, true, false, Option, none, some, List, [], ◌∷◌, ltb, if◌then◌else◌, Text, codes, text_eq,
  length,
}

pub record Mounted : Type 0 where
  pub point : Text
  pub fs : Text

-- `m[point] = fs`
unfoldable pub insert : List Mounted → Text → Text → List Mounted
insert [] point fs = record { point = point; fs = fs } ∷ []
insert (m ∷ ms) point fs =
    if text_eq m.point point then record m { fs = fs } ∷ ms else m ∷ insert ms point fs

-- `m[point]`, the empty string where the map has no such key.
unfoldable pub lookup : List Mounted → Text → Text
lookup [] point = []
lookup (m ∷ ms) point = if text_eq m.point point then m.fs else lookup ms point

-- One line of /proc/mounts. `fields[2]` is read before `fields[1]`; a line of fewer than three fields ends
-- the program, which is `none`.
unfoldable pub parse_line : List Mounted → Text → Option (List Mounted)
unfolding has_prefix words insert
parse_line mounts line =
    if has_prefix (codes "#") line
    then some mounts
    else elim (fields line) [ _ ∷ name ∷ fs ∷ _ ↦ some (insert mounts name fs) | _ ↦ none ]

unfoldable pub parse_lines : List Mounted → List Text → Option (List Mounted)
parse_lines mounts [] = some mounts
parse_lines mounts (l ∷ ls) = elim (parse_line mounts l) [
  | none ↦ none
  | some more ↦ parse_lines more ls
]

-- What a reading of the table does: it panics, or leaves the table and perhaps an error.
pub data Parsed : Type 0 where
  panic : Parsed
  table : List Mounted → Option Error → Parsed

abbrev parsed : Option Error → Option (List Mounted) → Parsed
parsed e none = panic
parsed e (some mounts) = table mounts e

abbrev scan_error : Bool → Option Error
scan_error true = some (system 3)
scan_error false = none

-- `ParseMountsFile`, from the text that the file opens with or the error: the table of an earlier call is
-- kept, and a scan that fails leaves the lines before it there.
unfoldable pub parse_mounts_file : List Mounted → Result Text → Parsed
unfolding scan_lines parse_lines
parse_mounts_file (m ∷ ms) opened = table (m ∷ ms) none
parse_mounts_file [] (err e) = table [] (some e)
parse_mounts_file [] (ok text) =
    parsed (scan_error (scan_lines text).1) (parse_lines [] (scan_lines text).0)

-- A step of the loop of `fsForDir`: the mount point that is matched so far, with its filesystem.
unfoldable pub better : Text → Mounted → Mounted → Mounted
unfolding has_prefix
better dir best m =
    if has_prefix m.point dir
    then (if ltb (length best.point) (length m.point) then m else best)
    else best

unfoldable pub longest : Text → Mounted → List Mounted → Mounted
longest dir best [] = best
longest dir best (m ∷ ms) = longest dir (better dir best m) ms

abbrev pub no_match : Mounted
no_match = record { point = []; fs = [] }

-- `fsForDir` with the absolute path of the directory.
unfoldable pub fs_for_dir : Text → List Mounted → Text
unfolding longest
fs_for_dir dir mounts = (longest dir no_match mounts).fs

-- `IsBtrfsVolume`
unfoldable pub is_btrfs_volume : Text → List Mounted → Bool
unfolding fs_for_dir text_eq
is_btrfs_volume dir mounts = text_eq (fs_for_dir dir mounts) (codes "btrfs")
