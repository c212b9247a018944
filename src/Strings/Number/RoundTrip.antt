-- ===== src/Strings/Number/RoundTrip.antt =====
-- A number that is printed reads back.
use mathlib.Core.Path.{subst}
use planet.Strings.Number.{
  in_range, parse_after_zero, format_octal, octal, number_from, parse_any, parse_uint,
}
use planet.Strings.Unquote.{digit_value}
use planet.Strings.Decimal.{IsDigit, itoa, decimal}
use planet.Base.{
  ℕ, zero, suc, ◌+◌, ◌*◌, ◌/◌, ◌%◌, ◌^◌, ◌<◌, ◌≡◌, refl, ap, ◌∙◌, ◌≢◌, inl, inr, some, [], ◌∷◌,
  ◌++◌, arith, ltb, leb, ◌==◌, if◌then◌else◌, Bool-cases, Text, All, All-append,
}

number_from-append :
    (base acc : ℕ) (a b : Text) (m : ℕ)
    → number_from base acc a ≡ some m
    → number_from base acc (a ++ b) ≡ number_from base m b
unfolding number_from
number_from-append base acc [] b m h = ap (λ x. number_from base x b) (cc h)
number_from-append base acc (c ∷ a) b m h = elim (Bool-cases (leb base (digit_value c))) [
  | inl e ↦ absurd (ground (arith, e, h))
  | inr e ↦ rw e (number_from-append base (acc * base + digit_value c) a b m (ground (arith, e, h)))
]

digit-value : (k : ℕ) → k < 10 → digit_value (b'0' + k) ≡ k
unfolding digit_value
digit-value k h = ground arith

number_from-octal : (fuel n : ℕ) → n < fuel → number_from 8 0 (octal fuel n) ≡ some n
unfolding octal number_from
number_from-octal zero n h = elim h [ ]
number_from-octal (suc fuel) n h = elim (Bool-cases (ltb n 8)) [
  | inl e ↦ rw e (rw (digit-value n (ground arith)) (ground arith))
  | inr e ↦ rw e (
      number_from-append 8 0 (octal fuel (n / 8)) ((b'0' + n % 8) ∷ []) (n / 8)
        (number_from-octal fuel (n / 8) (ground arith))
      ∙ (rw (digit-value (n % 8) (omega arith)) (ground arith)))
]

number_from-decimal : (fuel n : ℕ) → n < fuel → number_from 10 0 (decimal fuel n) ≡ some n
unfolding decimal number_from
number_from-decimal zero n h = elim h [ ]
number_from-decimal (suc fuel) n h = elim (Bool-cases (ltb n 10)) [
  | inl e ↦ rw e (rw (digit-value n (ground arith)) (ground arith))
  | inr e ↦ rw e (
      number_from-append 10 0 (decimal fuel (n / 10)) ((b'0' + n % 10) ∷ []) (n / 10)
        (number_from-decimal fuel (n / 10) (ground arith))
      ∙ (rw (digit-value (n % 10) (omega arith)) (ground arith)))
]

-- The first digit of a number above 0 is not 0.
decimal_head :
    (fuel n : ℕ) → n < fuel → 0 < n → (c : ℕ) × (cs : Text) × (decimal fuel n ≡ c ∷ cs) × (c ≢ b'0')
unfolding decimal
decimal_head zero n h k = elim h [ ]
decimal_head (suc fuel) n h k = elim (Bool-cases (ltb n 10)) [
  | inl e ↦ (b'0' + n, [], rw e refl, omega (arith, k))
  | inr e ↦
      (let (c, cs, same, ne) = decimal_head fuel (n / 10) (ground arith) (ground arith) in
        (c, cs ++ (b'0' + n % 10) ∷ [], rw (e, same) refl, ne))
]

pub parse_uint-octal : (n : ℕ) → n < 2 ^ 32 → parse_uint 8 (format_octal n) ≡ some n
unfolding parse_uint format_octal number_from
parse_uint-octal n h = rw (number_from-octal (suc n) n (omega arith)) (ground arith)

pub parse_any-itoa : (n : ℕ) → 0 < n → n < 2 ^ 32 → parse_any (itoa n) ≡ some n
unfolding parse_any parse_uint itoa
parse_any-itoa n k h =
    let (c, cs, same, ne) = decimal_head (suc n) n (omega arith) k in
    rw same (
      subst
        (λ t. (if c == b'0' then parse_after_zero cs else in_range (number_from 10 0 t)) ≡ some n)
        same (rw (number_from-decimal (suc n) n (omega arith)) (ground (arith, ne))))

pub octal-IsDigit : (fuel n : ℕ) → All IsDigit (octal fuel n)
unfolding octal
octal-IsDigit zero n = tt
octal-IsDigit (suc fuel) n = elim (Bool-cases (ltb n 8)) [
  | inl e ↦ rw e ((omega arith, ground arith), tt)
  | inr e ↦ rw e (
      All-append IsDigit (octal fuel (n / 8)) ((b'0' + n % 8) ∷ []) (octal-IsDigit fuel (n / 8))
        ((omega arith, omega arith), tt))
]
