-- ===== src/Strings/Quote.antt =====
-- `strconv.Quote` and `%q` on ASCII.
use planet.Base.{
  ℕ, ◌+◌, ◌-◌, ◌/◌, ◌%◌, Bool, not, ◌&&◌, Option, none, some, [], ◌∷◌, ◌++◌, ltb, leb, ◌==◌,
  if◌then◌else◌, Text, codes,
}

abbrev hex_digit : ℕ → ℕ
hex_digit n = if ltb n 10 then b'0' + n else b'a' + (n - 10)

-- The letter of a short escape.
unfoldable letter : ℕ → Option ℕ
letter c =
    if c == 7
    then some b'a'
    else if c == 8
    then some b'b'
    else if c == 9
    then some b't'
    else if c == 10
    then some b'n'
    else if c == 11
    then some b'v'
    else if c == 12
    then some b'f'
    else if c == 13
    then some b'r'
    else if c == 34
    then some 34
    else if c == 92
    then some 92
    else none

unfoldable pub escaped : ℕ → Text
unfolding letter
escaped c = b'\\' ∷ elim (letter c) [
  | some l ↦ l ∷ []
  | none ↦ b'x' ∷ hex_digit (c / 16) ∷ hex_digit (c % 16) ∷ []
]

abbrev pub is_plain : ℕ → Bool
is_plain c = leb 32 c && leb c 126 && not (c == 34) && not (c == 92)

unfoldable pub quoted : Text → Text
unfolding escaped
quoted [] = []
quoted (c ∷ cs) = (if is_plain c then c ∷ [] else escaped c) ++ quoted cs

unfoldable pub quote : Text → Text
unfolding quoted
quote s = codes "\"" ++ (quoted s ++ codes "\"")
