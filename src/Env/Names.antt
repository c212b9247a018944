-- ===== src/Env/Names.antt =====
-- The names of an environment: which are set, and that none is set twice.
use planet.Base.{
  ◌≡◌, refl, inl, inr, true, false, [], ◌∷◌, arith, if◌then◌else◌, Bool-cases, Text, text_eq,
  text_eq_iff, is_empty,
}
use planet.Env.{delim, EnvVars, get, has, delete_pair, upsert, append}
use planet.Strings.{join}

-- No name stands twice.
abbrev pub IsUnique : EnvVars → Type 0
IsUnique [] = Unit
IsUnique (p ∷ ps) = (has ps p.name ≡ false) × IsUnique ps

pub has-upsert :
    (vars : EnvVars) (k v j : Text)
    → has (upsert vars k v) j ≡ (if text_eq k j then true else has vars j)
unfolding has upsert
has-upsert [] k v j = refl
has-upsert (p ∷ ps) k v j =
    ground (arith, text_eq_iff p.name k, text_eq_iff p.name j, text_eq_iff k j, has-upsert ps k v j)

pub upsert-IsUnique : (vars : EnvVars) (k v : Text) → IsUnique vars → IsUnique (upsert vars k v)
unfolding has upsert
upsert-IsUnique [] k v h = (refl, tt)
upsert-IsUnique (p ∷ ps) k v h = elim (Bool-cases (text_eq p.name k)) [
  | inl same ↦ rw same h
  | inr other ↦ rw other (
    ground (arith, has-upsert ps k v p.name, text_eq_iff k p.name, text_eq_iff p.name k),
    upsert-IsUnique ps k v h.1,
  )
]

pub has-delete_other :
    (vars : EnvVars) (k j : Text) → has vars j ≡ false → has (delete_pair vars k) j ≡ false
unfolding has delete_pair
has-delete_other [] k j h = refl
has-delete_other (p ∷ ps) k j h = ground (arith, has-delete_other ps k j)

pub delete-IsUnique : (vars : EnvVars) (k : Text) → IsUnique vars → IsUnique (delete_pair vars k)
unfolding delete_pair
delete-IsUnique [] k h = h
delete-IsUnique (p ∷ ps) k h = elim (Bool-cases (text_eq p.name k)) [
  | inl same ↦ rw same h.1
  | inr other ↦ rw other (has-delete_other ps k p.name h.0, delete-IsUnique ps k h.1)
]

-- `Append` keeps an environment in which no name stands twice free of repeated names.
pub append-IsUnique : (vars : EnvVars) (k v : Text) → IsUnique vars → IsUnique (append vars k v)
unfolding append
append-IsUnique vars k v h = elim (Bool-cases (is_empty (get vars k))) [
  | inl e ↦ rw e (upsert-IsUnique vars k v h)
  | inr e ↦ rw e (upsert-IsUnique vars k (join delim (get vars k ∷ v ∷ [])) h)
]

-- A deleted name is not set any more where no name stood twice.
pub has-delete :
    (vars : EnvVars) (k j : Text)
    → IsUnique vars
    → has (delete_pair vars k) j ≡ (if text_eq k j then false else has vars j)
unfolding has delete_pair
has-delete [] k j h = ground arith
has-delete (p ∷ ps) k j h =
    ground
      (arith, text_eq_iff p.name k, text_eq_iff p.name j, text_eq_iff k j, has-delete ps k j h.1)

-- A name that is not set reads as the empty string.
pub get-has : (vars : EnvVars) (k : Text) → has vars k ≡ false → get vars k ≡ []
unfolding get has
get-has [] k h = refl
get-has (p ∷ ps) k h = ground (arith, get-has ps k)
