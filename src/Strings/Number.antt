-- ===== src/Strings/Number.antt =====
-- `strconv.ParseUint(s, base, 32)` and `%o`. In base 0 the text tells the base; underscores between the
-- digits, which Go allows there, are not read.
pub mod RoundTrip
use planet.Strings.Unquote.{digit_value}
use planet.Base.{
  ℕ, zero, suc, ◌+◌, ◌*◌, ◌/◌, ◌%◌, ◌^◌, ◌||◌, Option, none, some, [], ◌∷◌, ◌++◌, ltb, leb, ◌==◌,
  if◌then◌else◌, Text, is_empty,
}

unfoldable pub number_from : ℕ → ℕ → Text → Option ℕ
unfolding digit_value
number_from base acc [] = some acc
number_from base acc (c ∷ cs) =
    let rest = number_from base (acc * base + digit_value c) cs in
    if leb base (digit_value c) then none else rest

abbrev pub in_range : Option ℕ → Option ℕ
in_range none = none
in_range (some n) = if ltb n (2 ^ 32) then some n else none

unfoldable pub parse_uint : ℕ → Text → Option ℕ
unfolding number_from
parse_uint base s = if is_empty s then none else in_range (number_from base 0 s)

-- Behind a leading 0: a letter for the base, or octal digits, which may be missing.
unfoldable pub parse_after_zero : Text → Option ℕ
unfolding number_from parse_uint
parse_after_zero [] = some 0
parse_after_zero (c ∷ []) = in_range (number_from 8 0 (c ∷ []))
parse_after_zero (c ∷ d ∷ cs) =
    if c == b'x' || c == b'X'
    then parse_uint 16 (d ∷ cs)
    else if c == b'b' || c == b'B'
    then parse_uint 2 (d ∷ cs)
    else if c == b'o' || c == b'O'
    then parse_uint 8 (d ∷ cs)
    else in_range (number_from 8 0 (c ∷ d ∷ cs))

-- With base 0.
unfoldable pub parse_any : Text → Option ℕ
unfolding parse_uint parse_after_zero
parse_any [] = none
parse_any (c ∷ cs) = if c == b'0' then parse_after_zero cs else parse_uint 10 (c ∷ cs)

unfoldable pub octal : ℕ → ℕ → Text
octal zero n = []
octal (suc fuel) n =
    let rest = octal fuel (n / 8) ++ (b'0' + n % 8) ∷ [] in
    if ltb n 8 then (b'0' + n) ∷ [] else rest

-- `0%o`
unfoldable pub format_octal : ℕ → Text
unfolding octal
format_octal n = b'0' ∷ octal (suc n) n
