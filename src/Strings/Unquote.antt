-- ===== src/Strings/Unquote.antt =====
-- `strconv.Unquote` on ASCII text, as of Go 1.13. The text between the quotes is read by a machine with
-- one state for each part of an escape.
pub mod RoundTrip
use planet.Base.{
  ℕ, zero, suc, ◌+◌, ◌-◌, ◌*◌, ◌/◌, ◌%◌, Bool, true, false, ◌&&◌, ◌||◌, Option, none, some, [], ◌∷◌,
  ◌++◌, ltb, leb, ◌==◌, if◌then◌else◌, Text, is_empty,
}

-- At a character; behind a backslash; or within a number of a base, with the digits left, the value so
-- far and whether it is a byte.
pub data State : Type 0 where
  plain escape : State
  digits : ℕ → ℕ → ℕ → Bool → State

-- `utf8.EncodeRune` of a number up to the largest rune.
unfoldable encode_rune : ℕ → Text
encode_rune v =
    if ltb v 128
    then v ∷ []
    else if ltb v 2048
    then (192 + v / 64) ∷ (128 + v % 64) ∷ []
    else if leb 55296 v && leb v 57343
    then 239 ∷ 191 ∷ 189 ∷ []
    else if ltb v 65536
    then (224 + v / 4096) ∷ (128 + v / 64 % 64) ∷ (128 + v % 64) ∷ []
    else (240 + v / 262144) ∷ (128 + v / 4096 % 64) ∷ (128 + v / 64 % 64) ∷ (128 + v % 64) ∷ []

unfoldable pub digit_value : ℕ → ℕ
digit_value c =
    if leb b'0' c && leb c b'9'
    then c - b'0'
    else if leb b'a' c && leb c b'f'
    then c - b'a' + 10
    else if leb b'A' c && leb c b'F'
    then c - b'A' + 10
    else 99

-- What a number stands for: a byte, or the encoding of a rune.
unfoldable pub number_text : ℕ → Bool → Option Text
unfolding encode_rune
number_text v true = if leb v 255 then some (v ∷ []) else none
number_text v false = if leb v 1114111 then some (encode_rune v) else none

abbrev finished : Option Text → Option (Text × State)
finished none = none
finished (some t) = some (t, plain)

-- The byte of a short escape.
unfoldable short_escape : ℕ → ℕ → Option ℕ
short_escape q c =
    if c == b'a'
    then some 7
    else if c == b'b'
    then some 8
    else if c == b'f'
    then some 12
    else if c == b'n'
    then some 10
    else if c == b'r'
    then some 13
    else if c == b't'
    then some 9
    else if c == b'v'
    then some 11
    else if c == 92
    then some 92
    else if c == q
    then some q
    else none

unfoldable after_backslash : ℕ → ℕ → Option (Text × State)
unfolding short_escape
after_backslash q c = elim (short_escape q c) [
  | some b ↦ some (b ∷ [], plain)
  | none ↦
      if c == b'x'
      then some ([], digits 16 2 0 true)
      else if c == b'u'
      then some ([], digits 16 4 0 false)
      else if c == b'U'
      then some ([], digits 16 8 0 false)
      else if leb b'0' c && leb c b'7'
      then some ([], digits 8 2 (c - b'0') true)
      else none
]

unfoldable pub step : ℕ → State → ℕ → Option (Text × State)
unfolding after_backslash digit_value number_text
step q plain c =
    if c == q || c == 10 then none else if c == 92 then some ([], escape) else some (c ∷ [], plain)
step q escape c = after_backslash q c
step q (digits base zero v byte) c = none
step q (digits base (suc k) v byte) c =
    let w = v * base + digit_value c in
    if leb base (digit_value c)
    then none
    else if k == 0
    then finished (number_text w byte)
    else some ([], digits base k w byte)

abbrev pub prepend : Text → Option Text → Option Text
prepend out none = none
prepend out (some t) = some (out ++ t)

unfoldable pub run : ℕ → State → Text → Option Text
unfolding step
run q plain [] = some []
run q escape [] = none
run q (digits _ _ _ _) [] = none
run q s (c ∷ cs) = elim (step q s c) [ none ↦ none | some (out, s') ↦ prepend out (run q s' cs) ]

-- A rune in single quotes ends with its first character.
unfoldable run_one : ℕ → State → Text → Option Text
unfolding step
run_one q plain [] = some []
run_one q escape [] = none
run_one q (digits _ _ _ _) [] = none
run_one q s (c ∷ cs) = elim (step q s c) [
  | none ↦ none
  | some ([], s') ↦ run_one q s' cs
  | some (o ∷ out, s') ↦ if is_empty cs then some (o ∷ out) else none
]

-- A text as what stands before its last character, and that character.
unfoldable pub split_last : Text → Option (Text × ℕ)
split_last [] = none
split_last (c ∷ cs) = elim (split_last cs) [ none ↦ some ([], c) | some (t, l) ↦ some (c ∷ t, l) ]

unfoldable without_returns : Text → Text
without_returns [] = []
without_returns (c ∷ cs) = let rest = without_returns cs in if c == 13 then rest else c ∷ rest

unfoldable has_byte : ℕ → Text → Bool
has_byte b [] = false
has_byte b (c ∷ cs) = c == b || has_byte b cs

unfoldable pub between : ℕ → Text → Option Text
unfolding run run_one without_returns has_byte
between q t =
    if q == 96
    then (if has_byte 96 t then none else some (without_returns t))
    else if q == 34
    then run q plain t
    else if q == 39
    then run_one q plain t
    else none

unfoldable pub unquote : Text → Option Text
unfolding between split_last
unquote [] = none
unquote (q ∷ rest) = elim (split_last rest) [
  | none ↦ none
  | some (t, l) ↦ if q == l then between q t else none
]
