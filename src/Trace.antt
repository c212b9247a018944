-- ===== src/Trace.antt =====
-- Errors as the program tells them apart (vendor/github.com/gravitational/trace names the kinds), and
-- operations that change a state and may fail. What was changed before an error stays changed.
use planet.Base.{ℕ, ◌≡◌, refl, Bool, true, false}

pub data Error : Type 0 where
  bad_parameter not_found already_exists compare_failed limit_exceeded aborted : Error
  -- Any other error of the system, by a number.
  system : ℕ → Error

pub data Result {ℓ} (A : Type ℓ) : Type ℓ where
  ok : A → Result A
  err : Error → Result A

abbrev pub Exec {ℓ} : Type ℓ → Type ℓ → Type ℓ
Exec S A = S → Result A × S

module _ {ℓ} {S A : Type ℓ} where
  abbrev pub pure : A → Exec S A
  pure a s = (ok a, s)

  abbrev pub raise : Error → Exec S A
  raise e s = (err e, s)

  abbrev pub lift : Result A → Exec S A
  lift r s = (r, s)

  -- `x, err := f()` where the caller inspects `err`.
  abbrev pub attempt : Exec S A → Exec S (Result A)
  attempt m s = let (r, s') = m s in (ok r, s')

module _ {ℓ} {S A B : Type ℓ} where
  abbrev pub continue : Result A → (A → Exec S B) → Exec S B
  continue (ok a) f s = f a s
  continue (err e) f s = (err e, s)

  infixl 5 ◌>>=◌ ◌>>◌
  abbrev pub ◌>>=◌ : Exec S A → (A → Exec S B) → Exec S B
  ◌>>=◌ m f s = let (r, s') = m s in continue r f s'

  abbrev pub ◌>>◌ : Exec S A → Exec S B → Exec S B
  m >> n = m >>= λ _. n

module _ {ℓ} {S A B : Type ℓ} where
  -- A step that succeeds is followed by the rest.
  pub bind-ok :
      (m : Exec S A) (f : A → Exec S B) (s t : S) (a : A) → m s ≡ (ok a, t) → (m >>= f) s ≡ f a t
  bind-ok m f s t a e = rw e refl

  -- A step that fails ends the operation.
  pub bind-err :
      (m : Exec S A) (f : A → Exec S B) (s t : S) (e : Error)
      → m s ≡ (err e, t)
      → (m >>= f) s ≡ (err e, t)
  bind-err m f s t x e = rw e refl

-- An operation that succeeds has succeeded in its first step.
pub continue_ok {ℓ} :
    {S A B : Type ℓ}
    → (r : Result A) (f : A → Exec S B) (s : S) (b : B) → (continue r f s).0 ≡ ok b
    → (a : A) × (r ≡ ok a) × (continue r f s ≡ f a s)
continue_ok (ok a) f s b h = (a, refl, refl)
continue_ok (err e) f s b h = absurd (cc h)

abbrev pub is_not_found : Error → Bool
is_not_found not_found = true
is_not_found _ = false

-- An operation that succeeds has succeeded in its first step, and the rest of it succeeds.
pub then_ok {ℓ} :
    {S A B : Type ℓ}
    → (r : Result A) (f : A → Exec S B) (s : S) (b : B) → (continue r f s).0 ≡ ok b
    → (a : A) × (r ≡ ok a) × ((f a s).0 ≡ ok b)
then_ok (ok a) f s b h = (a, refl, h)
then_ok (err e) f s b h = absurd (cc h)

pub ok_inj {ℓ} : {A : Type ℓ} → (a b : A) → ok a ≡ ok b → a ≡ b
ok_inj a b h = cc h
