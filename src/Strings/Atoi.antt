-- ===== src/Strings/Atoi.antt =====
-- `strconv.Atoi` where a caller takes the number and drops the error. Beyond the range of a 64-bit
-- `int` the number is the end of the range.
use planet.Strings.Decimal.{value_from}
use planet.Base.{ℕ, Bool, true, not, ◌&&◌, ◌||◌, [], ◌∷◌, leb, ◌==◌, if◌then◌else◌, Text, is_empty}

abbrev pub max_int : ℕ
max_int = 9223372036854775807

unfoldable pub all_digits : Text → Bool
all_digits [] = true
all_digits (c ∷ cs) = (leb b'0' c && leb c b'9') && all_digits cs

abbrev clamp : ℕ → ℕ
clamp n = if leb n max_int then n else max_int

-- The number where it is positive, and 0 for any other: a sign, no digits or another character.
unfoldable pub atoi : Text → ℕ
unfolding all_digits value_from
atoi [] = 0
atoi (c ∷ cs) =
    let digits = if c == b'+' then cs else c ∷ cs in
    if is_empty digits || not (all_digits digits) then 0 else clamp (value_from 0 digits)
