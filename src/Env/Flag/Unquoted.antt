-- ===== src/Env/Flag/Unquoted.antt =====
-- Values that are not in quotes, and one whose quote is not closed.
use planet.Base.{
  ℕ, suc, ◌+◌, ◌≤◌, ◌≡◌, refl, ap, ◌∙◌, some, [], ◌∷◌, ◌++◌, arith, Text, length, length-append,
}
use planet.Env.{EnvVars}
use planet.Env.Flag.{
  Parsed, parse_from, parse, set, done, panicked, refused, env_key, env_value, advance, value_of,
  scan, scan_token, scan_string, skip_space, is_ident_rune, char, move_next,
}
use planet.Env.Flag.RoundTrip.{IsName, at, to_value, go_round}

-- The fuel of `parse` is enough for four rounds.
fueled :
    (n r : Text) (c : ℕ)
    → IsName n
    → (f : ℕ) × (length (n ++ b'=' ∷ (c ∷ r)) + 1 ≡ suc (suc (suc (suc f))))
fueled [] r c h = absurd h
fueled (x ∷ a) r c h = (length a + length r, omega (arith, length-append (x ∷ a) (b'=' ∷ (c ∷ r))))

from_value :
    (vars : EnvVars) (n r : Text) (c : ℕ) (x : Parsed)
    → IsName n
    → ((f : ℕ) → parse_from (suc (suc f)) (at env_value n [] (c ∷ r)) ≡ x)
    → set vars (n ++ b'=' ∷ (c ∷ r)) ≡ (elim x [ done result ↦ done (vars ++ result) | y ↦ y ])
unfolding set parse
from_value vars n r c x h k =
    let (f, e) = fueled n r c h in
    let then_set : Parsed → Parsed = λ y. elim y [ done result ↦ done (vars ++ result) | z ↦ z ] in
    ap then_set (
      ap (λ g. parse_from g (at env_key [] [] (n ++ b'=' ∷ (c ∷ r)))) e
      ∙ to_value (suc (suc f)) n [] [] (c ∷ r) h
      ∙ k f)

at_quote : (n : Text) (f : ℕ) → parse_from (suc (suc f)) (at env_value n [] (b'"' ∷ [])) ≡ panicked
unfolding parse_from scan scan_token scan_string skip_space is_ident_rune advance value_of
at_quote n f = refl

-- A value that is only an opening quote: the slice between the quotes is out of range, whatever the
-- name and the variables before.
pub set-open_quote :
    (vars : EnvVars) (n : Text) → IsName n → set vars (n ++ b'=' ∷ (b'"' ∷ [])) ≡ panicked
set-open_quote vars n h = from_value vars n [] b'"' panicked h (at_quote n)

abbrev IsDigit : ℕ → Type 0
IsDigit c = (b'0' ≤ c) × (c ≤ b'9')

scan_digit : (c : ℕ) (r : Text) → IsDigit c → scan (c ∷ r) ≡ some (char c, r)
unfolding scan scan_token skip_space is_ident_rune
scan_digit c r h = ground (arith, h)

move_next-digit : (c : ℕ) (r : Text) → IsDigit c → move_next (c ∷ r) ≡ c ∷ r
unfolding move_next
move_next-digit c r h = ground (arith, h)

key_digit :
    (f c : ℕ) (n r : Text) (acc : EnvVars)
    → IsDigit c
    → parse_from (suc f) (at env_key n acc (c ∷ r)) ≡ refused
unfolding parse_from advance
key_digit f c n r acc h = rw (scan_digit c r h, parse_from) refl

at_digits :
    (n r : Text) (c d : ℕ) (f : ℕ)
    → IsDigit c
    → IsDigit d
    → parse_from (suc (suc f)) (at env_value n [] (c ∷ d ∷ r)) ≡ refused
unfolding advance value_of
at_digits n r c d f h k =
    go_round (suc f) (at env_value n [] (c ∷ d ∷ r))
      (at env_key [] (record { name = n; val = c ∷ [] } ∷ []) (move_next (d ∷ r))) (char c) (d ∷ r)
      (scan_digit c (d ∷ r) h) refl
    ∙ rw (move_next-digit d r k) (key_digit f d [] r _ k)

-- An unquoted value that begins with two digits is refused: only the first of them is read as the
-- value, and the second is no name.
pub set-digits :
    (vars : EnvVars) (n r : Text) (c d : ℕ)
    → IsName n
    → IsDigit c
    → IsDigit d
    → set vars (n ++ b'=' ∷ (c ∷ d ∷ r)) ≡ refused
set-digits vars n r c d h p q = from_value vars n (d ∷ r) c refused h (λ f. at_digits n r c d f p q)
