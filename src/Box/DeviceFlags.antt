-- ===== src/Box/DeviceFlags.antt =====
-- lib/box/cfg.go: devices as command-line flags. How a flag is split at commas (`cstrings.SplitComma`, not
-- part of the repository's own code) is an argument. A number of more than 32 bits is refused.
pub mod RoundTrip
use planet.Trace.{system, bad_parameter, ok, err, Result, pure, Exec, ◌>>◌}
use planet.Strings.{split, pieces, join}
use planet.Strings.Decimal.{itoa}
use planet.Strings.Number.{parse_any, format_octal, parse_uint}
use planet.Box.Devices.{Device}
use planet.Base.{
  ℕ, Bool, false, Option, none, some, List, [], ◌∷◌, ◌++◌, map, ◌==◌, if◌then◌else◌, Text, codes,
  text_eq, is_empty,
}

abbrev pub Devices : Type 0
Devices = List Device

abbrev pub no_device : Device
no_device = record { path = []; permissions = []; file_mode = 0; uid = 0; gid = 0 }

abbrev pub field : Text → Text → Text
field key val = key ++ b'=' ∷ val

-- A part that is not the default.
abbrev pub unless : Bool → Text → List Text
unless b t = if b then [] else t ∷ []

abbrev pub path_part : Device → List Text
path_part d = unless false (field (codes "path") d.path)

abbrev pub permissions_part : Device → List Text
permissions_part d = unless (is_empty d.permissions) (field (codes "permissions") d.permissions)

abbrev pub mode_part : Device → List Text
mode_part d = unless (d.file_mode == 0) (field (codes "fileMode") (format_octal d.file_mode))

abbrev pub uid_part : Device → List Text
uid_part d = unless (d.uid == 0) (field (codes "uid") (itoa d.uid))

abbrev pub gid_part : Device → List Text
gid_part d = unless (d.gid == 0) (field (codes "gid") (itoa d.gid))

unfoldable pub format_parts : Device → List Text
format_parts d = path_part d ++ (permissions_part d ++ (mode_part d ++ (uid_part d ++ gid_part d)))

-- `Format`
unfoldable pub format : Device → Text
unfolding join format_parts
format d = join (codes ";") (format_parts d)

-- `String`
unfoldable pub to_string : Devices → Text
unfolding join format
to_string ds = join (codes ";") (map format ds)

abbrev pub number_or : Option ℕ → (ℕ → Device) → Result Device
number_or none f = err (system 0)
number_or (some n) f = ok (f n)

-- The `switch` over the key; another key is passed over.
unfoldable pub set_field : Text → Text → Device → Result Device
unfolding text_eq parse_uint parse_any
set_field key val d =
    if text_eq key (codes "path")
    then ok (record d { path = val })
    else if text_eq key (codes "permissions")
    then ok (record d { permissions = val })
    else if text_eq key (codes "fileMode")
    then number_or (parse_uint 8 val) (λ n. record d { file_mode = n })
    else if text_eq key (codes "uid")
    then number_or (parse_any val) (λ n. record d { uid = n })
    else if text_eq key (codes "gid")
    then number_or (parse_any val) (λ n. record d { gid = n })
    else ok d

unfoldable pub parse_part : List Text → Device → Result Device
unfolding set_field
parse_part (key ∷ val ∷ []) d = set_field key val d
parse_part _ d = err bad_parameter

unfoldable pub parse_parts : List Text → Device → Result Device
unfolding parse_part pieces
parse_parts [] d = ok d
parse_parts (p ∷ ps) d = elim (parse_part (split b'=' p) d) [
  | err e ↦ err e
  | ok d' ↦ parse_parts ps d'
]

-- `parseDevice`
unfoldable pub parse_device : Text → Result Device
unfolding parse_parts pieces
parse_device value = parse_parts (split b';' value) no_device

-- A value that is refused leaves the devices as they are.
unfoldable pub set_item : Text → Exec Devices (Unit {0})
unfolding parse_device
set_item v ds = elim (parse_device v) [ err e ↦ (err e, ds) | ok d ↦ (ok tt, ds ++ d ∷ []) ]

unfoldable pub set_items : List Text → Exec Devices (Unit {0})
unfolding set_item
set_items [] = pure tt
set_items (i ∷ rest) = set_item i >> set_items rest

unfoldable pub set : (Text → List Text) → Text → Exec Devices (Unit {0})
unfolding set_items
set split_comma v = set_items (split_comma v)
