-- ===== src/Env/Flag/RoundTrip.antt =====
-- A list of variables with quoted values is read back by `EnvVars.Set`.
use planet.Base.{
  ℕ, suc, ◌+◌, ◌-◌, ◌≤◌, ◌≡◌, refl, sym, ap, ◌∙◌, true, Option, none, some, [], ◌∷◌, ◌++◌, map,
  append_assoc, append-nil, arith, Text, codes, length, length-append, All,
}
use planet.Strings.{join}
use planet.Strings.Split.{Lacks}
use planet.Env.{EnvPair, EnvVars}
use planet.Env.Flag.{
  Next, stop, panicked, Parsed, is_ident_rune, scan, ParserMode, env_equals, env_value, scan_token,
  skip_space, scan_ident, scan_string, ident, str, char, inner, drop_last, value_of, env_key,
  Parser, parse_from, parse, set, done, advance, move_next, go, Token,
}

abbrev pub IsName : Text → Type 0
IsName [] = ⊥
IsName (c ∷ cs) = (is_ident_rune c 0 ≡ true) × All (λ d. is_ident_rune d 1 ≡ true) cs

-- A name as the parser takes it, and a value that needs no escape.
pub record IsSettable (v : EnvPair) : Type 0 where
  pub ident_name : IsName v.name
  pub no_quote : Lacks b'"' v.val
  pub no_backslash : Lacks b'\\' v.val
  pub no_newline : Lacks 10 v.val

-- `name="value"`
abbrev pub quoted : EnvPair → Text
quoted v = v.name ++ b'=' ∷ (b'"' ∷ (v.val ++ b'"' ∷ []))

scan_ident-append :
    (a r : Text)
    → All (λ d. is_ident_rune d 1 ≡ true) a
    → scan_ident (a ++ b'=' ∷ r) ≡ (a, b'=' ∷ r)
unfolding scan_ident
scan_ident-append [] r h = refl
scan_ident-append (c ∷ a) r h = rw (h.0, scan_ident-append a r h.1) refl

scan_string-append :
    (a r : Text)
    → Lacks b'"' a
    → Lacks b'\\' a
    → Lacks 10 a
    → scan_string (a ++ b'"' ∷ r) ≡ (a ++ b'"' ∷ [], r)
unfolding scan_string
scan_string-append [] [] q b n = refl
scan_string-append [] (d ∷ r) q b n = refl
scan_string-append (c ∷ []) r q b n = ground (arith, scan_string-append [] r tt tt tt)
scan_string-append (c ∷ d ∷ a) r q b n = ground (arith, scan_string-append (d ∷ a) r q.1 b.1 n.1)

skip_space-name : (c : ℕ) (t : Text) → is_ident_rune c 0 ≡ true → skip_space (c ∷ t) ≡ c ∷ t
unfolding skip_space is_ident_rune
skip_space-name c t h = ground (arith, h)

-- The three tokens of a variable.
pub scan_name : (n r : Text) → IsName n → scan (n ++ b'=' ∷ r) ≡ some (ident n, b'=' ∷ r)
unfolding scan scan_token
scan_name [] r h = absurd h
scan_name (c ∷ a) r h =
    rw (skip_space-name c (a ++ b'=' ∷ r) h.0, h.0, scan_ident-append a r h.1) refl

pub scan_equals : (r : Text) → scan (b'=' ∷ r) ≡ some (char b'=', r)
unfolding scan scan_token skip_space is_ident_rune
scan_equals r = refl

scan_value :
    (a r : Text)
    → Lacks b'"' a
    → Lacks b'\\' a
    → Lacks 10 a
    → scan (b'"' ∷ a ++ b'"' ∷ r) ≡ some (str (b'"' ∷ a ++ b'"' ∷ []), r)
unfolding scan scan_token skip_space is_ident_rune
scan_value a r q b n = rw (scan_string-append a r q b n) refl

drop_last-append : (a : Text) → drop_last (a ++ b'"' ∷ []) ≡ a
unfolding drop_last
drop_last-append [] = refl
drop_last-append (c ∷ []) = refl
drop_last-append (c ∷ d ∷ a) = ap (λ x. c ∷ x) (drop_last-append (d ∷ a))

inner-quoted : (a : Text) → inner (b'"' ∷ a ++ b'"' ∷ []) ≡ some a
unfolding inner
inner-quoted [] = refl
inner-quoted (c ∷ a) = ap some (drop_last-append (c ∷ a))

-- A round at a token.
pub go_round :
    (f : ℕ) (p q : Parser) (t : Token) (rest : Text)
    → scan p.input ≡ some (t, rest)
    → advance p.mode t rest p ≡ go q
    → parse_from (suc f) p ≡ parse_from f q
unfolding parse_from
go_round f p q t rest e k = rw (e, parse_from) (rw (k, parse_from) refl)

value_round :
    (a rest : Text) (p : Parser)
    → advance env_value (str (b'"' ∷ (a ++ b'"' ∷ []))) rest p
      ≡ go (record {
        mode = env_key;
        name = [];
        result = p.result ++ record { name = p.name; val = a } ∷ [];
        input = move_next rest;
      })
unfolding advance value_of
value_round a rest p =
    let next : Option Text → Next = λ o. elim o [
      | none ↦ stop panicked
      | some v ↦ go (record {
        mode = env_key;
        name = [];
        result = p.result ++ record { name = p.name; val = v } ∷ [];
        input = move_next rest;
      })
    ] in
    ap next (inner-quoted a)

nothing_left :
    (g : ℕ) (n : Text) (acc : EnvVars)
    → parse_from (suc g) (record { mode = env_key; name = n; result = acc; input = [] }) ≡ done acc
unfolding parse_from scan scan_token skip_space
nothing_left g n acc = refl

abbrev pub at : ParserMode → Text → EnvVars → Text → Parser
at m n acc s = record { mode = m; name = n; result = acc; input = s }

-- The rounds up to the value.
pub to_value :
    (f : ℕ) (n m : Text) (acc : EnvVars) (r : Text)
    → IsName n
    → parse_from (suc (suc f)) (at env_key m acc (n ++ b'=' ∷ r))
      ≡ parse_from f (at env_value n acc r)
unfolding advance
to_value f n m acc r h =
    go_round (suc f) (at env_key m acc (n ++ b'=' ∷ r)) (at env_equals n acc (b'=' ∷ r)) (ident n)
      (b'=' ∷ r) (scan_name n r h) refl
    ∙ go_round f (at env_equals n acc (b'=' ∷ r)) (at env_value n acc r) (char b'=') r
        (scan_equals r) refl

-- One variable is three rounds.
module _ (f : ℕ) (n : Text) (acc : EnvVars) (v : EnvPair) (tail : Text) (h : IsSettable v) where
  abbrev behind_equals : Text
  behind_equals = b'"' ∷ (v.val ++ b'"' ∷ tail)

  read_one :
      parse_from (suc (suc (suc f))) (at env_key n acc (v.name ++ b'=' ∷ behind_equals))
      ≡ parse_from f (at env_key [] (acc ++ v ∷ []) (move_next tail))
  read_one =
      to_value (suc f) v.name n acc behind_equals h.ident_name
      ∙ go_round f (at env_value v.name acc behind_equals)
          (at env_key [] (acc ++ v ∷ []) (move_next tail)) (str (b'"' ∷ (v.val ++ b'"' ∷ []))) tail
          (scan_value v.val tail h.no_quote h.no_backslash h.no_newline)
          (value_round v.val tail (at env_value v.name acc behind_equals))

quoted-append :
    (v : EnvPair) (t : Text) → quoted v ++ t ≡ v.name ++ b'=' ∷ (b'"' ∷ (v.val ++ b'"' ∷ t))
quoted-append v t =
    append_assoc v.name (b'=' ∷ (b'"' ∷ (v.val ++ b'"' ∷ []))) t
    ∙ ap (λ x. v.name ++ b'=' ∷ (b'"' ∷ x)) (append_assoc v.val (b'"' ∷ []) t)

-- The rounds of so many variables, and `g` more.
rounds : ℕ → EnvVars → ℕ
rounds g [] = suc g
rounds g (v ∷ vs) = suc (suc (suc (rounds g vs)))

read_all :
    (g : ℕ) (n : Text) (acc vs : EnvVars)
    → All IsSettable vs
    → parse_from (rounds g vs) (at env_key n acc (join (codes ",") (map quoted vs)))
      ≡ done (acc ++ vs)
unfolding rounds join move_next
read_all g n acc [] h = nothing_left g n acc ∙ ap done (sym (append-nil acc))
read_all g n acc (v ∷ []) h = read_one (suc g) n acc v [] h.0 ∙ nothing_left g [] (acc ++ v ∷ [])
read_all g n acc (v ∷ w ∷ vs) h =
    let rest : Text = join (codes ",") (map quoted (w ∷ vs)) in
    ap (λ x. parse_from (rounds g (v ∷ w ∷ vs)) (at env_key n acc x))
      (quoted-append v (b',' ∷ rest))
    ∙ read_one (rounds g (w ∷ vs)) n acc v (b',' ∷ rest) h.0
    ∙ read_all g [] (acc ++ v ∷ []) (w ∷ vs) h.1
    ∙ ap done (append_assoc acc (v ∷ []) (w ∷ vs))

rounds_add : (g : ℕ) (vs : EnvVars) → rounds g vs ≡ rounds 0 vs + g
unfolding rounds
rounds_add g [] = omega arith
rounds_add g (v ∷ vs) = omega (arith, rounds_add g vs)

quoted-length : (v : EnvPair) → 3 ≤ length (quoted v)
quoted-length v = omega (
  arith,
  length-append v.name (b'=' ∷ (b'"' ∷ (v.val ++ b'"' ∷ []))),
  length-append v.val (b'"' ∷ []),
)

-- Each variable is longer than its rounds.
rounds-le : (vs : EnvVars) → rounds 0 vs ≤ length (join (codes ",") (map quoted vs)) + 1
unfolding rounds join
rounds-le [] = omega arith
rounds-le (v ∷ []) = omega (arith, quoted-length v)
rounds-le (v ∷ w ∷ vs) = omega (
  arith,
  quoted-length v,
  rounds-le (w ∷ vs),
  length-append (quoted v) (b',' ∷ join (codes ",") (map quoted (w ∷ vs))),
)

-- `Set` reads a comma-separated list of variables with quoted values: where each name is one for the
-- parser and no value holds a quote, a backslash or a line break, it puts the variables behind those
-- that were set.
pub set-quoted :
    (vars vs : EnvVars)
    → All IsSettable vs
    → set vars (join (codes ",") (map quoted vs)) ≡ done (vars ++ vs)
unfolding set parse
set-quoted vars vs h =
    let s : Text = join (codes ",") (map quoted vs) in
    let g : ℕ = length s + 1 - rounds 0 vs in
    let fuel : length s + 1 ≡ rounds g vs = omega (arith, rounds_add g vs, rounds-le vs) in
    let then_set : Parsed → Parsed = λ r. elim r [ done result ↦ done (vars ++ result) | x ↦ x ] in
    ap then_set (ap (λ f. parse_from f (at env_key [] [] s)) fuel ∙ read_all g [] [] vs h)
