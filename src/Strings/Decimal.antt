-- ===== src/Strings/Decimal.antt =====
-- `strconv.Itoa` and `%d` on natural numbers. The fuel is one more than the number, which has fewer
-- digits than that.
use planet.Base.{
  ℕ, zero, suc, ◌+◌, ◌-◌, ◌*◌, ◌/◌, ◌%◌, ◌≤◌, ◌<◌, ◌≡◌, refl, inl, inr, [], ◌∷◌, ◌++◌, arith, ltb,
  if◌then◌else◌, Bool-cases, Text, All, All-append,
}

unfoldable pub decimal : ℕ → ℕ → Text
decimal zero n = []
decimal (suc fuel) n =
    let rest = decimal fuel (n / 10) ++ (b'0' + n % 10) ∷ [] in
    if ltb n 10 then (b'0' + n) ∷ [] else rest

unfoldable pub itoa : ℕ → Text
unfolding decimal
itoa n = decimal (suc n) n

abbrev pub IsDigit : ℕ → Type 0
IsDigit c = (b'0' ≤ c) × (c ≤ b'9')

decimal-IsDigit : (fuel n : ℕ) → All IsDigit (decimal fuel n)
unfolding decimal
decimal-IsDigit zero n = tt
decimal-IsDigit (suc fuel) n = elim (Bool-cases (ltb n 10)) [
  | inl e ↦ rw e ((omega arith, ground arith), tt)
  | inr e ↦ rw e (
      All-append IsDigit (decimal fuel (n / 10)) ((b'0' + n % 10) ∷ [])
        (decimal-IsDigit fuel (n / 10)) ((omega arith, omega arith), tt))
]

-- A printed number holds digits only.
pub itoa-IsDigit : (n : ℕ) → All IsDigit (itoa n)
unfolding itoa
itoa-IsDigit n = decimal-IsDigit (suc n) n

-- The number that a text of digits stands for, read from the left.
unfoldable pub value_from : ℕ → Text → ℕ
value_from acc [] = acc
value_from acc (c ∷ cs) = value_from (acc * 10 + (c - b'0')) cs

value_from-append :
    (acc : ℕ) (a b : Text) → value_from acc (a ++ b) ≡ value_from (value_from acc a) b
unfolding value_from
value_from-append acc [] b = refl
value_from-append acc (c ∷ a) b = value_from-append (acc * 10 + (c - b'0')) a b

value_from-decimal : (fuel n : ℕ) → n < fuel → value_from 0 (decimal fuel n) ≡ n
unfolding decimal value_from
value_from-decimal zero n h = elim h [ ]
value_from-decimal (suc fuel) n h = elim (Bool-cases (ltb n 10)) [
  | inl e ↦ rw e (omega arith)
  | inr e ↦ rw e (
      rw (value_from-append 0 (decimal fuel (n / 10)) ((b'0' + n % 10) ∷ []))
        (rw (value_from-decimal fuel (n / 10) (ground arith)) (omega arith)))
]

-- A printed number reads back as the number, so two numbers are printed alike only if they are equal.
pub value_from-itoa : (n : ℕ) → value_from 0 (itoa n) ≡ n
unfolding itoa
value_from-itoa n = value_from-decimal (suc n) n (omega arith)
