-- ===== src/Users/Upsert.antt =====
-- `Upsert` on a database of users, in which every name stands at most once.
use planet.Base.{
  ◌+◌, ◌≡◌, refl, Option, none, some, List, [], ◌∷◌, arith, if◌then◌else◌, Text, text_eq,
  text_eq_iff, text_eq_refl, length,
}
use planet.Users.{User, upsert_named, upsert_user}

module _ {A : Type 0} (name_of : A → Text) where
  -- The first entry of a name.
  pub find : Text → List A → Option A
  find k [] = none
  find k (x ∷ xs) = if text_eq (name_of x) k then some x else find k xs

  pub find-upsert_named :
      (u : A) (xs : List A) (k : Text)
      → find k (upsert_named name_of u xs) ≡ (if text_eq (name_of u) k then some u else find k xs)
  unfolding find upsert_named
  find-upsert_named u [] k = refl
  find-upsert_named u (x ∷ xs) k = ground (
    arith,
    text_eq_iff (name_of x) (name_of u),
    text_eq_iff (name_of x) k,
    text_eq_iff (name_of u) k,
    find-upsert_named u xs k,
  )

  -- The number of entries grows by one where the name was not there, and stays where it was.
  pub length-upsert_named :
      (u : A) (xs : List A)
      → length (upsert_named name_of u xs)
        ≡ elim (find (name_of u) xs) [ none ↦ length xs + 1 | some _ ↦ length xs ]
  unfolding find upsert_named
  length-upsert_named u [] = omega arith
  length-upsert_named u (x ∷ xs) = ground (arith, length-upsert_named u xs)

  -- The names of the others, in their order.
  pub names_without : Text → List A → List Text
  names_without k [] = []
  names_without k (x ∷ xs) =
      let rest = names_without k xs in if text_eq (name_of x) k then rest else name_of x ∷ rest

  names_without-upsert_named :
      (u : A) (xs : List A)
      → names_without (name_of u) (upsert_named name_of u xs) ≡ names_without (name_of u) xs
  unfolding names_without upsert_named
  names_without-upsert_named u [] = ground (arith, text_eq_refl (name_of u))
  names_without-upsert_named u (x ∷ xs) =
      ground (arith, text_eq_refl (name_of u), names_without-upsert_named u xs)

-- After `Upsert` the user is found under its name and no other name finds another user than before;
-- the others keep their order, and the database grows only where the name is new.
pub upsert_user_lem :
    (u : User) (users : List User) (k : Text)
    → (find (λ x. x.name) k (upsert_user u users)
        ≡ (if text_eq u.name k then some u else find (λ x. x.name) k users))
      × (names_without (λ x. x.name) u.name (upsert_user u users)
          ≡ names_without (λ x. x.name) u.name users)
      × (length (upsert_user u users) ≡ elim (find (λ x. x.name) u.name users) [
        | none ↦ length users + 1
        | some _ ↦ length users
      ])
unfolding upsert_user
upsert_user_lem u users k = (
  find-upsert_named (λ x. x.name) u users k,
  names_without-upsert_named (λ x. x.name) u users,
  length-upsert_named (λ x. x.name) u users,
)
