-- ===== src/Box/Mounts.antt =====
-- `Mount` and `Mounts` of lib/box/cfg.go. How a flag is split at commas (`cstrings.SplitComma`, not
-- part of the repository's own code) is an argument.
pub mod RoundTrip
use planet.Base.{
  Bool, true, false, not, ◌||◌, List, [], ◌∷◌, ◌++◌, if◌then◌else◌, Text, codes, text_eq, is_empty,
}
use planet.Strings.{split, join}
use planet.Trace.{Result, ok, err, bad_parameter, Exec, pure, ◌>>◌}

pub record Mount : Type 0 where
  pub src : Text
  pub dst : Text
  pub readonly : Bool
  pub skip_if_missing : Bool
  pub recursive : Bool

abbrev pub Mounts : Type 0
Mounts = List Mount

unfoldable pub parse_option : Text → Mount → Result Mount
parse_option option mount =
    if text_eq option (codes "r") || text_eq option (codes "ro")
    then ok (record mount { readonly = true })
    else if text_eq option (codes "rw") || text_eq option (codes "w")
    then ok (record mount { readonly = false })
    else if text_eq option (codes "skip")
    then ok (record mount { skip_if_missing = true })
    else if text_eq option (codes "rec") || text_eq option (codes "recursive")
    then ok (record mount { recursive = true })
    else err bad_parameter

unfoldable pub parse_options : List Text → Mount → Result Mount
unfolding parse_option
parse_options [] mount = ok mount
parse_options (option ∷ options) mount = elim (parse_option option mount) [
  | ok m ↦ parse_options options m
  | err e ↦ err e
]

abbrev plain : Text → Text → Mount
plain src dst = record {
  src = src;
  dst = dst;
  readonly = false;
  skip_if_missing = false;
  recursive = false;
}

-- The values between the colons; fewer than two are refused.
unfoldable pub parse_mount : List Text → Result Mount
unfolding parse_options
parse_mount (src ∷ dst ∷ options) = elim (parse_options options (plain src dst)) [
  | ok m ↦ ok m
  | err _ ↦ err bad_parameter
]
parse_mount _ = err bad_parameter

-- A value that is refused leaves the mounts as they are.
unfoldable pub set_item : Text → Exec Mounts (Unit {0})
unfolding parse_mount
set_item v m = elim (parse_mount (split b':' v)) [
  | ok mount ↦ (ok tt, m ++ mount ∷ [])
  | err e ↦ (err e, m)
]

-- The loop of `Set` over the items of a flag: it stops at the first that is refused, and the ones
-- before it stay.
unfoldable pub set_items : List Text → Exec Mounts (Unit {0})
unfolding set_item
set_items [] = pure tt
set_items (i ∷ rest) = set_item i >> set_items rest

unfoldable pub set : (Text → List Text) → Text → Exec Mounts (Unit {0})
unfolding set_items
set split_comma v = set_items (split_comma v)

abbrev pub when_set : Bool → Text → List Text
when_set b t = if b then t ∷ [] else []

unfoldable pub format_options : Mount → List Text
format_options mount =
    when_set mount.skip_if_missing (codes "skip")
    ++ (when_set mount.readonly (codes "ro") ++ when_set mount.recursive (codes "rec"))

unfoldable pub format_mount : Mount → Text
unfolding format_options join
format_mount mount =
    let options = format_options mount in
    mount.src
    ++ (codes ":"
        ++ (mount.dst
            ++ (if not (is_empty options) then codes ":" ++ join (codes ":") options else [])))

-- `String`: a space behind each mount but the last.
unfoldable pub to_string : Mounts → Text
unfolding format_mount
to_string [] = []
to_string (m ∷ []) = format_mount m
to_string (m ∷ n ∷ ms) = format_mount m ++ (codes " " ++ to_string (n ∷ ms))

-- `HostStateDir` of tool/planet/cfg.go: the host's directory that is mounted as the state directory.
abbrev pub gravity_data_dir : Text
gravity_data_dir = codes "/var/lib/gravity"

unfoldable pub host_state_dir : Mounts → Text
host_state_dir [] = gravity_data_dir
host_state_dir (m ∷ ms) = if text_eq m.dst gravity_data_dir then m.src else host_state_dir ms
