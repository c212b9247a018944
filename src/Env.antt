-- ===== src/Env.antt =====
-- `EnvVars` of lib/box/cfg.go: the environment of the container, an ordered list of pairs.
pub mod Laws
pub mod Names
pub mod Flag
use planet.Base.{
  Bool, true, false, not, none, some, List, [], ◌∷◌, ◌++◌, if◌then◌else◌, Text, codes, text_eq,
  is_empty,
}
use planet.Strings.{cut, join}
use planet.Trace.{Result, ok, err, system}

pub record EnvPair : Type 0 where
  pub name : Text
  pub val : Text

abbrev pub EnvVars : Type 0
EnvVars = List EnvPair

-- A missing name reads as the empty string.
unfoldable pub get : EnvVars → Text → Text
get [] v = []
get (p ∷ ps) v = if text_eq p.name v then p.val else get ps v

unfoldable pub has : EnvVars → Text → Bool
has [] v = false
has (p ∷ ps) v = if text_eq p.name v then true else has ps v

-- The list without the first pair of that name; the source also returns the pair's value.
unfoldable pub delete_pair : EnvVars → Text → EnvVars
delete_pair [] v = []
delete_pair (p ∷ ps) v = if text_eq p.name v then ps else p ∷ delete_pair ps v

unfoldable pub delete : EnvVars → Text → Text × EnvVars
unfolding get delete_pair
delete vars v = (get vars v, delete_pair vars v)

unfoldable pub upsert : EnvVars → Text → Text → EnvVars
upsert [] k v = record { name = k; val = v } ∷ []
upsert (p ∷ ps) k v = if text_eq p.name k then record p { val = v } ∷ ps else p ∷ upsert ps k v

abbrev pub delim : Text
delim = codes " "

unfoldable pub append : EnvVars → Text → Text → EnvVars
unfolding get upsert join
append vars k v =
    let existing = get vars k in
    if not (is_empty existing)
    then upsert vars k (join delim (existing ∷ v ∷ []))
    else upsert vars k v

-- One `name=value`.
abbrev pub format_pair : EnvPair → Text
format_pair p = p.name ++ (codes "=" ++ p.val)

-- `Environ`, and `Environment` of `ProcessConfig`.
unfoldable pub environ : EnvVars → List Text
environ [] = []
environ (p ∷ ps) = format_pair p ∷ environ ps

-- `String`: a comma behind each pair but the last.
unfoldable pub to_string : EnvVars → Text
to_string [] = []
to_string (p ∷ []) = format_pair p
to_string (p ∷ q ∷ ps) = format_pair p ++ (codes "," ++ to_string (q ∷ ps))

-- The error is `trace.Errorf`.
unfoldable pub set_item : EnvVars → Text → Result EnvVars
unfolding cut
set_item vars input = elim (cut b'=' input) [
  | none ↦ err (system 0)
  | some (name, val) ↦ ok (vars ++ record { name = name; val = val } ∷ [])
]
