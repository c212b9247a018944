-- ===== src/Tests/Box.antt =====
-- Flags of the command line.
use planet.Base.{◌≡◌, refl, true, false, List, [], ◌∷◌, arith, Text, codes, text_eq}
use planet.Box.Overrides.{Overrides, addresses, set, to_string, format_host, format_hosts}
use planet.Box.Overrides.RoundTrip.{IsMap, set-to_string}
use planet.Strings.{split, join, pieces}
use planet.Trace.{ok}
use planet.Box.Mounts.{Mount, format_mount}

abbrev data_mount : Mount
data_mount = record {
  src = codes "/mnt/etcd";
  dst = codes "/ext/etcd";
  readonly = false;
  skip_if_missing = true;
  recursive = true;
}

abbrev secrets_mount : Mount
secrets_mount = record {
  src = codes "/mnt/secrets";
  dst = codes "/var/state";
  readonly = true;
  skip_if_missing = false;
  recursive = false;
}

-- A splitter that knows one flag.
abbrev two_mounts : Text → List Text
two_mounts v = format_mount data_mount ∷ format_mount secrets_mount ∷ []

data_mount_text : format_mount data_mount ≡ codes "/mnt/etcd:/ext/etcd:skip:rec"
unfolding format_mount
data_mount_text = refl

abbrev zones : Overrides
zones = (codes "a", codes "1" ∷ codes "8" ∷ []) ∷ (codes "b", codes "1" ∷ []) ∷ []

zones-IsMap : IsMap zones
unfolding text_eq
zones-IsMap = (
  ((λ e. omega (arith, e)), tt),
  (((λ e. omega (arith, e)), tt), (((λ e. omega (arith, e)), tt), tt)),
  refl,
  (((λ e. omega (arith, e)), tt), (((λ e. omega (arith, e)), tt), tt), refl, tt),
)

abbrev at_commas : Text → List Text
at_commas = split b','

set-to_string_example :
    ((set at_commas (to_string zones) []).0 ≡ ok tt)
    × (addresses (set at_commas (to_string zones) []).1 (codes "a") ≡ addresses zones (codes "a"))
unfolding format_hosts format_host to_string join pieces
set-to_string_example = set-to_string at_commas zones (codes "a") zones-IsMap refl
