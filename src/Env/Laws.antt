-- ===== src/Env/Laws.antt =====
-- What the operations on an environment do to the values that are read.
use planet.Strings.Split.{cut-append, Lacks}
use planet.Base.{
  ◌≡◌, refl, inl, inr, [], ◌∷◌, ◌++◌, arith, if◌then◌else◌, Bool-cases, Text, codes, text_eq,
  text_eq_iff, is_empty,
}
use planet.Trace.{ok}
use planet.Env.{format_pair, EnvPair, append, set_item, EnvVars, get, delete_pair, delete, upsert}
use planet.Env.Names.{get-has, IsUnique}

-- A write of one name is read back, and no other name reads differently.
pub get-upsert :
    (vars : EnvVars) (k v j : Text)
    → get (upsert vars k v) j ≡ (if text_eq k j then v else get vars j)
unfolding get upsert
get-upsert [] k v j = refl
get-upsert (p ∷ ps) k v j =
    ground (arith, text_eq_iff p.name k, text_eq_iff p.name j, text_eq_iff k j, get-upsert ps k v j)

get-delete_pair :
    (vars : EnvVars) (k j : Text)
    → IsUnique vars
    → get (delete_pair vars k) j ≡ (if text_eq k j then [] else get vars j)
unfolding get delete_pair
get-delete_pair [] k j h = ground arith
get-delete_pair (p ∷ ps) k j h = ground (
  arith,
  text_eq_iff p.name k,
  text_eq_iff p.name j,
  text_eq_iff k j,
  get-delete_pair ps k j h.1,
  get-has ps p.name h.0,
)

-- In an environment with no name twice, a deleted name reads as empty, others are kept, and the
-- value returned is the one that was read.
pub get-delete :
    (vars : EnvVars) (k j : Text)
    → IsUnique vars
    → ((delete vars k).0 ≡ get vars k)
      × (get (delete vars k).1 j ≡ (if text_eq k j then [] else get vars j))
unfolding delete
get-delete vars k j h = (refl, get-delete_pair vars k j h)

-- `Append` joins the new value to one that is set and not empty by a space, and touches no other
-- name.
pub get-append :
    (vars : EnvVars) (k v j : Text)
    → get (append vars k v) j ≡ (
        if text_eq k j
        then (if is_empty (get vars k) then v else get vars k ++ (codes " " ++ v))
        else get vars j)
unfolding append
get-append vars k v j = elim (Bool-cases (is_empty (get vars k))) [
  | inl e ↦ rw e (get-upsert vars k v j)
  | inr e ↦ rw e (get-upsert vars k (get vars k ++ (codes " " ++ v)) j)
]

-- `setItem` reads back what `Environ` prints: the name up to the first `=`, the value from there on.
pub set_item-format_pair :
    (vars : EnvVars) (p : EnvPair)
    → Lacks b'=' p.name
    → set_item vars (format_pair p) ≡ ok (vars ++ p ∷ [])
unfolding set_item
set_item-format_pair vars p h = rw (cut-append b'=' p.name p.val h, set_item)
