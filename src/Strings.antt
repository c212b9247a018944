-- ===== src/Strings.antt =====
-- Go's `strings` and `bufio` as far as the program calls them, on byte strings. Only one-byte
-- separators occur in the program. The proofs are in the children.
pub mod Split
pub mod Lines
pub mod Decimal
pub mod Quote
pub mod Unquote
pub mod Number
pub mod Sort
pub mod Atoi
use planet.Base.{
  ℕ, Bool, true, false, ◌&&◌, ◌||◌, Option, none, some, List, [], ◌∷◌, ◌++◌, leb, ◌==◌,
  if◌then◌else◌, Text, text_eq, length, is_empty,
}

-- `strings.HasPrefix(s, prefix)`, the prefix first.
unfoldable pub has_prefix : Text → Text → Bool
has_prefix [] s = true
has_prefix (p ∷ ps) [] = false
has_prefix (p ∷ ps) (c ∷ cs) = p == c && has_prefix ps cs

-- `strings.HasSuffix(s, suffix)`, the suffix first.
unfoldable pub has_suffix : Text → Text → Bool
unfolding text_eq
has_suffix suffix [] = text_eq suffix []
has_suffix suffix (c ∷ cs) = text_eq suffix (c ∷ cs) || has_suffix suffix cs

-- `strings.Contains(s, sub)`, the substring first.
unfoldable pub contains : Text → Text → Bool
unfolding has_prefix
contains sub [] = has_prefix sub []
contains sub (c ∷ cs) = has_prefix sub (c ∷ cs) || contains sub cs

-- `s[n:]`
abbrev pub drop : ℕ → Text → Text
drop n [] = []
drop ℕ.zero (c ∷ cs) = c ∷ cs
drop (ℕ.suc n) (c ∷ cs) = drop n cs

-- `s[:n]`
abbrev pub take : ℕ → Text → Text
take n [] = []
take ℕ.zero (c ∷ cs) = []
take (ℕ.suc n) (c ∷ cs) = c ∷ take n cs

cut_cons : ℕ → Option (Text × Text) → Option (Text × Text)
cut_cons c none = none
cut_cons c (some (a, b)) = some (c ∷ a, b)

-- What stands before and behind the first `sep`: `strings.Index` and two slices, or
-- `strings.SplitN(s, sep, 2)`.
unfoldable pub cut : ℕ → Text → Option (Text × Text)
unfolding cut_cons
cut sep [] = none
cut sep (c ∷ cs) = let rest = cut_cons c (cut sep cs) in if c == sep then some ([], cs) else rest

-- The first piece and the others.
unfoldable pub pieces : ℕ → Text → Text × List Text
pieces sep [] = ([], [])
pieces sep (c ∷ cs) =
    let rest = pieces sep cs in if c == sep then ([], rest.0 ∷ rest.1) else (c ∷ rest.0, rest.1)

-- `strings.Split(s, sep)`
abbrev pub split : ℕ → Text → List Text
split sep s = (pieces sep s).0 ∷ (pieces sep s).1

-- `strings.Join(parts, sep)`
unfoldable pub join : Text → List Text → Text
join sep [] = []
join sep (x ∷ []) = x
join sep (x ∷ y ∷ r) = x ++ (sep ++ join sep (y ∷ r))

-- `unicode.IsSpace` on ASCII.
unfoldable pub is_space : ℕ → Bool
is_space c = (leb 9 c && leb c 13) || c == 32

abbrev pub flush : Text → List Text → List Text
flush [] ws = ws
flush (c ∷ w) ws = (c ∷ w) ∷ ws

-- The word that the text begins with, empty at a space, and the words behind it.
unfoldable pub words : Text → Text × List Text
unfolding is_space
words [] = ([], [])
words (c ∷ cs) =
    let rest = words cs in if is_space c then ([], flush rest.0 rest.1) else (c ∷ rest.0, rest.1)

-- `strings.Fields(s)` on ASCII.
abbrev pub fields : Text → List Text
fields s = flush (words s).0 (words s).1

-- `bufio.ScanLines` drops one carriage return at the end of a line.
unfoldable pub drop_cr : Text → Text
drop_cr [] = []
drop_cr (c ∷ []) = if c == 13 then [] else c ∷ []
drop_cr (c ∷ d ∷ r) = c ∷ drop_cr (d ∷ r)

-- No line stands behind the last newline.
unfoldable pub drop_last_empty : List Text → List Text
drop_last_empty [] = []
drop_last_empty (x ∷ []) = if is_empty x then [] else x ∷ []
drop_last_empty (x ∷ y ∷ r) = x ∷ drop_last_empty (y ∷ r)

abbrev pub max_token : ℕ
max_token = 65536

-- The scan stops at a line that does not fit `bufio.MaxScanTokenSize`; the flag says that it did.
unfoldable pub clip : List Text → List Text × Bool
unfolding drop_cr
clip [] = ([], false)
clip (l ∷ ls) =
    let rest = clip ls in
    if leb max_token (length l) then ([], true) else (drop_cr l ∷ rest.0, rest.1)

-- The lines that a `bufio.Scanner` yields, and whether it ends with `ErrTooLong`.
unfoldable pub scan_lines : Text → List Text × Bool
unfolding clip pieces drop_last_empty
scan_lines s = clip (drop_last_empty (split 10 s))

-- A string among others.
unfoldable pub has_text : Text → List Text → Bool
has_text j [] = false
has_text j (k ∷ ks) = text_eq k j || has_text j ks

abbrev trim_left : Text → Text
trim_left [] = []
trim_left (c ∷ cs) = if is_space c then trim_left cs else c ∷ cs

trim_right : Text → Text
trim_right [] = []
trim_right (c ∷ cs) =
    let rest = trim_right cs in if is_empty rest && is_space c then [] else c ∷ rest

-- `strings.TrimSpace` on ASCII.
unfoldable pub trim_space : Text → Text
unfolding trim_right is_space
trim_space s = trim_right (trim_left s)
