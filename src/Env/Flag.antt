-- ===== src/Env/Flag.antt =====
-- `EnvVars.Set` of lib/box/cfg.go and its parser, on Go's text/scanner with the parser's mode. The input is
-- ASCII: a letter is one of the English alphabet.
pub mod RoundTrip
pub mod Ends
pub mod Unquoted
use planet.Base.{
  ℕ, suc, ◌+◌, Bool, not, ◌&&◌, ◌||◌, Option, none, some, [], ◌∷◌, ◌++◌, ltb, leb, ◌==◌,
  if◌then◌else◌, Text, length,
}
use planet.Env.{EnvVars}

abbrev is_letter : ℕ → Bool
is_letter c = (leb b'a' c && leb c b'z') || (leb b'A' c && leb c b'Z')

abbrev is_digit : ℕ → Bool
is_digit c = leb b'0' c && leb c b'9'

-- `isIdentRune`; the place of the character in the name stands second.
unfoldable pub is_ident_rune : ℕ → ℕ → Bool
is_ident_rune c i = not (c == b'=') && (c == b'_' || is_letter c || (is_digit c && ltb 0 i))

pub data Token : Type 0 where
  ident : Text → Token
  -- With its first quote, and with what ended it.
  str : Text → Token
  char : ℕ → Token

-- `TokenText`
abbrev pub token_text : Token → Text
token_text (ident t) = t
token_text (str t) = t
token_text (char c) = c ∷ []

-- The rest of a name, and what stands behind it.
unfoldable pub scan_ident : Text → Text × Text
unfolding is_ident_rune
scan_ident [] = ([], [])
scan_ident (c ∷ cs) =
    let rest = scan_ident cs in if is_ident_rune c 1 then (c ∷ rest.0, rest.1) else ([], c ∷ cs)

abbrev ends_literal : ℕ → Bool
ends_literal c = c == b'"' || c == 10

abbrev is_escaped : ℕ → ℕ → Bool
is_escaped c d = c == b'\\' && (d == b'\\' || d == b'"')

-- A literal behind its first quote, up to the quote, the line break or the end of the input that ends it.
-- The scanner reports a literal that is not closed on the standard error only. Of the escapes only those of
-- a quote and of a backslash change where a literal ends.
unfoldable pub scan_string : Text → Text × Text
scan_string [] = ([], [])
scan_string (c ∷ []) = (c ∷ [], [])
scan_string (c ∷ d ∷ r) =
    let behind = scan_string r in
    let rest = scan_string (d ∷ r) in
    if ends_literal c
    then (c ∷ [], d ∷ r)
    else if is_escaped c d
    then (c ∷ d ∷ behind.0, behind.1)
    else (c ∷ rest.0, rest.1)

unfoldable pub skip_space : Text → Text
skip_space [] = []
skip_space (c ∷ cs) = if c == 9 || c == 10 || c == 13 || c == 32 then skip_space cs else c ∷ cs

unfoldable pub scan_token : Text → Option (Token × Text)
scan_token [] = none
scan_token (c ∷ cs) =
    if is_ident_rune c 0
    then (let rest = scan_ident cs in some (ident (c ∷ rest.0), rest.1))
    else if c == b'"'
    then (let rest = scan_string cs in some (str (c ∷ rest.0), rest.1))
    else some (char c, cs)

-- `Scan`: the next token and what stands behind it, `none` at the end.
unfoldable pub scan : Text → Option (Token × Text)
unfolding scan_token skip_space
scan s = scan_token (skip_space s)

pub data ParserMode : Type 0 where
  env_key env_equals env_value : ParserMode

-- `panicked` is a slice out of range.
pub data Parsed : Type 0 where
  done : EnvVars → Parsed
  refused panicked out_of_fuel : Parsed

-- The variables of `parse` and what the scanner has not read yet.
pub record Parser : Type 0 where
  pub mode : ParserMode
  pub name : Text
  pub result : EnvVars
  pub input : Text

pub data Next : Type 0 where
  go : Parser → Next
  stop : Parsed → Next

pub drop_last : Text → Text
drop_last [] = []
drop_last (c ∷ []) = []
drop_last (c ∷ d ∷ r) = c ∷ drop_last (d ∷ r)

-- `s[1:len(s)-1]`, out of range for less than two bytes.
unfoldable pub inner : Text → Option Text
unfolding drop_last
inner [] = none
inner (c ∷ []) = none
inner (c ∷ d ∷ r) = some (drop_last (d ∷ r))

-- The value of a token.
unfoldable pub value_of : Token → Option Text
unfolding inner
value_of (str t) = inner t
value_of t = some (token_text t)

-- `moveNextVariable`
unfoldable pub move_next : Text → Text
move_next [] = []
move_next (c ∷ cs) = if c == b',' then cs else c ∷ cs

on_key : Token → Text → Parser → Next
on_key (ident t) rest p = go (record p { mode = env_equals; name = t; input = rest })
on_key _ rest p = stop refused

on_equals : Token → Text → Parser → Next
on_equals (char c) rest p =
    if c == b'=' then go (record p { mode = env_value; input = rest }) else stop refused
on_equals _ rest p = stop refused

on_value : Token → Text → Parser → Next
unfolding value_of move_next
on_value t rest p = elim (value_of t) [
  | none ↦ stop panicked
  | some v ↦ go (record {
    mode = env_key;
    name = [];
    result = p.result ++ record { name = p.name; val = v } ∷ [];
    input = move_next rest;
  })
]

-- The body of the loop at a token, with what stands behind it.
unfoldable pub advance : ParserMode → Token → Text → Parser → Next
unfolding on_key on_equals on_value
advance env_key t rest p = on_key t rest p
advance env_equals t rest p = on_equals t rest p
advance env_value t rest p = on_value t rest p

abbrev pub at_end : ParserMode → EnvVars → Parsed
at_end env_key result = done result
at_end _ result = refused

abbrev pub step : Parser → Next
step p = elim (scan p.input) [
  | none ↦ stop (at_end p.mode p.result)
  | some (t, rest) ↦ advance p.mode t rest p
]

-- The loop of `parse`, with fuel.
unfoldable pub parse_from : ℕ → Parser → Parsed
unfolding scan advance
parse_from ℕ.zero p = out_of_fuel
parse_from (suc f) p = elim (step p) [ go q ↦ parse_from f q | stop r ↦ r ]

abbrev pub start : Text → Parser
start s = record { mode = env_key; name = []; result = []; input = s }

-- `newEnvParser` and `parse`; each round reads at least one byte.
unfoldable pub parse : Text → Parsed
unfolding parse_from
parse s = parse_from (length s + 1) (start s)

unfoldable pub set : EnvVars → Text → Parsed
unfolding parse
set vars s = elim (parse s) [ done result ↦ done (vars ++ result) | r ↦ r ]
