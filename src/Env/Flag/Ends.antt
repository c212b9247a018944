-- ===== src/Env/Flag/Ends.antt =====
-- The loop of the parser: each round reads at least one byte.
use planet.Env.{EnvVars}
use planet.Base.{
  ℕ, zero, suc, ◌+◌, ◌≤◌, ◌<◌, ◌≡◌, refl, ◌≢◌, inl, inr, Option, none, some, [], ◌∷◌, ◌++◌, arith,
  ◌==◌, Bool-cases, Text, length,
}
use planet.Env.Flag.{
  Token, ident, str, char, scan, scan_token, skip_space, scan_ident, scan_string, ParserMode,
  env_key, env_equals, env_value, Parser, Parsed, out_of_fuel, Next, go, stop, advance, step,
  at_end, move_next, value_of, parse_from, parse, set, start, done, refused, panicked,
}

length-scan_ident : (s : Text) → length (scan_ident s).1 ≤ length s
unfolding scan_ident
length-scan_ident [] = omega arith
length-scan_ident (c ∷ cs) = ground (arith, length-scan_ident cs)

length-scan_string : (s : Text) → length (scan_string s).1 ≤ length s
unfolding scan_string
length-scan_string [] = omega arith
length-scan_string (c ∷ []) = omega arith
length-scan_string (c ∷ d ∷ r) = ground (arith, length-scan_string r, length-scan_string (d ∷ r))

length-skip_space : (s : Text) → length (skip_space s) ≤ length s
unfolding skip_space
length-skip_space [] = omega arith
length-skip_space (c ∷ cs) = ground (arith, length-skip_space cs)

scan_token-length :
    (s : Text) (t : Token) (rest : Text) → scan_token s ≡ some (t, rest) → length rest < length s
unfolding scan_token
scan_token-length [] t rest h = absurd (cc h)
scan_token-length (c ∷ cs) t rest h = ground (arith, length-scan_ident cs, length-scan_string cs, h)

scan-length :
    (s : Text) (t : Token) (rest : Text) → scan s ≡ some (t, rest) → length rest < length s
unfolding scan
scan-length s t rest h =
    omega (arith, scan_token-length (skip_space s) t rest h, length-skip_space s)

length-move_next : (s : Text) → length (move_next s) ≤ length s
unfolding move_next
length-move_next [] = omega arith
length-move_next (c ∷ cs) = ground arith

-- What is left to read behind a round.
advance-length :
    (m : ParserMode) (t : Token) (rest : Text) (p q : Parser)
    → advance m t rest p ≡ go q
    → length q.input ≤ length rest
unfolding advance
advance-length env_key (ident t) rest p q h = ground (arith, h)
advance-length env_key (str t) rest p q h = absurd (cc h)
advance-length env_key (char t) rest p q h = absurd (cc h)
advance-length env_equals (char c) rest p q h = ground (arith, h)
advance-length env_equals (ident t) rest p q h = absurd (cc h)
advance-length env_equals (str t) rest p q h = absurd (cc h)
advance-length env_value t rest p q h = ground (arith, h, length-move_next rest)

step-length : (p q : Parser) → step p ≡ go q → length q.input < length p.input
step-length p q h = go_on (scan p.input) refl h
  where
    go_on :
        (o : Option (Token × Text))
        → scan p.input ≡ o
        → (elim o [
          | none ↦ stop (at_end p.mode p.result)
          | some (t, rest) ↦ advance p.mode t rest p
        ])
          ≡ go q
        → length q.input < length p.input
    go_on none e k = absurd (cc k)
    go_on (some (t, rest)) e k =
        omega (arith, scan-length p.input t rest e, advance-length p.mode t rest p q k)

abbrev Stops : Next → Type 0
Stops (go q) = Unit
Stops (stop r) = r ≢ out_of_fuel

advance-Stops : (m : ParserMode) (t : Token) (rest : Text) (p : Parser) → Stops (advance m t rest p)
unfolding advance
advance-Stops env_key (ident t) rest p = tt
advance-Stops env_key (str t) rest p = λ e. cc
advance-Stops env_key (char t) rest p = λ e. cc
advance-Stops env_equals (char c) rest p = elim (Bool-cases (c == b'=')) [
  | inl e ↦ rw e tt
  | inr e ↦ rw e (λ k. cc)
]
advance-Stops env_equals (ident t) rest p = λ e. cc
advance-Stops env_equals (str t) rest p = λ e. cc
advance-Stops env_value t rest p = ended (value_of t)
  where
    ended :
        (o : Option Text)
        → Stops (elim o [
          | none ↦ stop panicked
          | some v ↦ go (record {
            mode = env_key;
            name = [];
            result = p.result ++ record { name = p.name; val = v } ∷ [];
            input = move_next rest;
          })
        ])
    ended none = λ e. cc
    ended (some v) = tt

at_end-ne : (m : ParserMode) (result : EnvVars) → at_end m result ≢ out_of_fuel
at_end-ne env_key result = λ e. cc
at_end-ne env_equals result = λ e. cc
at_end-ne env_value result = λ e. cc

step-Stops : (p : Parser) → Stops (step p)
step-Stops p = reads (scan p.input)
  where
    reads :
        (o : Option (Token × Text))
        → Stops (elim o [
          | none ↦ stop (at_end p.mode p.result)
          | some (t, rest) ↦ advance p.mode t rest p
        ])
    reads none = at_end-ne p.mode p.result
    reads (some (t, rest)) = advance-Stops p.mode t rest p

parse_from_ends : (f : ℕ) (p : Parser) → length p.input < f → parse_from f p ≢ out_of_fuel
unfolding parse_from
parse_from_ends zero p h = absurd (omega arith)
parse_from_ends (suc f) p h =
    next (step p) (step-Stops p) (λ q e. parse_from_ends f q (omega (arith, step-length p q e)))
  where
    next :
        (n : Next)
        → Stops n
        → ((q : Parser) → n ≡ go q → parse_from f q ≢ out_of_fuel)
        → (elim n [ go q ↦ parse_from f q | stop r ↦ r ]) ≢ out_of_fuel
    next (go q) s k = k q refl
    next (stop r) s k = s

-- Whatever the input, the fuel of the parser does not run out: `EnvVars.Set` sets variables, refuses the
-- input or panics.
pub set_ends : (vars : EnvVars) (s : Text) → set vars s ≢ out_of_fuel
unfolding set
set_ends vars s = ended (parse s) (parse_from_ends (length s + 1) (start s) (omega arith))
  where
    ended :
        (r : Parsed)
        → r ≢ out_of_fuel
        → (elim r [ done result ↦ done (vars ++ result) | x ↦ x ]) ≢ out_of_fuel
    ended (done result) h = λ e. cc
    ended refused h = h
    ended panicked h = h
    ended out_of_fuel h = h
