-- ===== src/Strings/Unquote/RoundTrip.antt =====
-- `Unquote` undoes `Quote` on ASCII text.
use planet.Strings.Quote.{quote, quoted, escaped, is_plain}
use planet.Strings.Unquote.{between, unquote, State, plain, step, run, prepend, split_last}
use planet.Strings.Split.{Lacks}
use planet.Base.{
  ℕ, zero, suc, ◌≤◌, ◌<◌, ◌≡◌, refl, sym, ap, ◌∙◌, ◌≢◌, inl, inr, Bool, true, false, ◌&&◌, Option,
  none, some, [], ◌∷◌, ◌++◌, append_assoc, arith, leb, ◌==◌, if◌then◌else◌, Bool-cases, Text, codes,
  text_eq, text_eq_iff, All, All-append,
}

abbrev pub IsAscii : Text → Type 0
IsAscii = All (λ c. c < 128)

split_last-append : (a : Text) (l : ℕ) → split_last (a ++ l ∷ []) ≡ some (a, l)
unfolding split_last
split_last-append [] l = refl
split_last-append (c ∷ a) l = rw (split_last-append a l) refl

abbrev after : Text → Option (Text × State) → Option (Text × State)
after out none = none
after out (some (t, s)) = some (out ++ t, s)

-- What the machine has yielded behind a text, and its state there.
unfoldable steps : ℕ → State → Text → Option (Text × State)
steps q s [] = some ([], s)
steps q s (c ∷ cs) = elim (step q s c) [ none ↦ none | some (out, s') ↦ after out (steps q s' cs) ]

prepend-append : (a b : Text) (r : Option Text) → prepend (a ++ b) r ≡ prepend a (prepend b r)
prepend-append a b none = refl
prepend-append a b (some t) = ap some (append_assoc a b t)

run_cons :
    (q : ℕ) (s : State) (c : ℕ) (cs out : Text) (t : State)
    → step q s c ≡ some (out, t)
    → run q s (c ∷ cs) ≡ prepend out (run q t cs)
unfolding run
run_cons q plain c cs out t h = rw (h, run) refl
run_cons q State.escape c cs out t h = rw (h, run) refl
run_cons q (State.digits b k v y) c cs out t h = rw (h, run) refl

-- A machine that has got through a text has taken its first character.
after_inverse :
    (out o : Text) (r : Option (Text × State)) (t : State)
    → after out r ≡ some (o, t)
    → (p : Text) × (r ≡ some (p, t)) × (o ≡ out ++ p)
after_inverse out o (some (p, u)) t h = (p, grind arith, grind arith)
after_inverse out o none t h = absurd (cc h)

run-append_step :
    (q : ℕ) (s : State) (c : ℕ) (a b out : Text) (t : State) (r : Option (Text × State))
    → ((u : State) (o : Text)
        → steps q u a ≡ some (o, t)
        → run q u (a ++ b) ≡ prepend o (run q t b))
    → step q s c ≡ r
    → elim r [ none ↦ none | some (o, s') ↦ after o (steps q s' a) ] ≡ some (out, t)
    → run q s (c ∷ a ++ b) ≡ prepend out (run q t b)
run-append_step q s c a b out t none ih e h = absurd (cc h)
run-append_step q s c a b out t (some (o, u)) ih e h =
    let (p, k, m) = after_inverse o out (steps q u a) t h in
    run_cons q s c (a ++ b) o u e
    ∙ ap (prepend o) (ih u p k)
    ∙ sym (prepend-append o p (run q t b))
    ∙ ap (λ x. prepend x (run q t b)) (sym m)

prepend_nil : (r : Option Text) → prepend [] r ≡ r
prepend_nil none = refl
prepend_nil (some t) = refl

run-append :
    (q : ℕ) (s : State) (a b : Text) (out : Text) (t : State)
    → steps q s a ≡ some (out, t)
    → run q s (a ++ b) ≡ prepend out (run q t b)
unfolding steps
run-append q s [] b out t h =
    let eo : out ≡ [] = cc in let es : t ≡ s = cc in rw (eo, es) (sym (prepend_nil (run q s b)))
run-append q s (c ∷ a) b out t h =
    run-append_step q s c a b out t (step q s c) (λ u o k. run-append q u a b o t k) refl h

-- What the machine makes of the quoting of one character.
abbrev one_quoted : ℕ → Text
one_quoted c = if is_plain c then c ∷ [] else escaped c

abbrev yields : ℕ → Option (Text × State) → Bool
yields c (some (out, plain)) = text_eq out (c ∷ [])
yields c _ = false

unfoldable all_below : ℕ → (ℕ → Bool) → Bool
all_below zero f = true
all_below (suc n) f = f n && all_below n f

all_below_lem : (n : ℕ) (f : ℕ → Bool) → all_below n f ≡ true → (c : ℕ) → c < n → f c ≡ true
unfolding all_below
all_below_lem zero f h c l = ground arith
all_below_lem (suc n) f h c l = elim (Bool-cases (c == n)) [
  | inl e ↦ let k : c ≡ n = ground arith in let m : f n ≡ true = ground arith in rw k m
  | inr e ↦ all_below_lem n f (ground arith) c (ground arith)
]

yields_lem : (c : ℕ) (r : Option (Text × State)) → yields c r ≡ true → r ≡ some (c ∷ [], plain)
yields_lem c none h = ground arith
yields_lem c (some (out, plain)) h = ap (λ z. some (z, plain)) ((text_eq_iff out (c ∷ [])).0 h)
yields_lem c (some (out, State.escape)) h = ground arith
yields_lem c (some (out, State.digits b k v y)) h = ground arith

every_yields : all_below 128 (λ c. yields c (steps 34 plain (one_quoted c))) ≡ true
unfolding all_below steps step escaped text_eq
every_yields = refl

run-quoted : (v : Text) → IsAscii v → run 34 plain (quoted v) ≡ some v
unfolding quoted run
run-quoted [] h = refl
run-quoted (c ∷ v) h =
    run-append 34 plain (one_quoted c) (quoted v) (c ∷ []) plain (
      yields_lem c (steps 34 plain (one_quoted c))
        (all_below_lem 128 (λ c. yields c (steps 34 plain (one_quoted c))) every_yields c h.0))
    ∙ ap (prepend (c ∷ [])) (run-quoted v h.1)

-- For every ASCII text, unquoting its quotation gives the text.
pub unquote-quote : (v : Text) → IsAscii v → unquote (quote v) ≡ some v
unfolding unquote quote between
unquote-quote v h = rw (split_last-append (quoted v) 34, unquote) (run-quoted v h)

unfoldable prints : Text → Bool
prints [] = true
prints (c ∷ cs) = leb 32 c && prints cs

prints-All : (t : Text) → prints t ≡ true → All (λ c. 32 ≤ c) t
unfolding prints
prints-All [] h = tt
prints-All (c ∷ t) h = (ground arith, prints-All t (ground arith))

every_prints : all_below 128 (λ c. prints (one_quoted c)) ≡ true
unfolding all_below prints escaped
every_prints = refl

quoted-All : (v : Text) → IsAscii v → All (λ c. 32 ≤ c) (quoted v)
unfolding quoted
quoted-All [] h = tt
quoted-All (c ∷ v) h =
    All-append (λ c. 32 ≤ c) (one_quoted c) (quoted v)
      (prints-All (one_quoted c)
        (all_below_lem 128 (λ c. prints (one_quoted c)) every_prints c h.0))
      (quoted-All v h.1)

All-Lacks : (b : ℕ) (t : Text) → b < 32 → All (λ c. 32 ≤ c) t → Lacks b t
All-Lacks b [] k h = tt
All-Lacks b (c ∷ t) k h = (ground arith, All-Lacks b t k h.1)

-- No control character stands in a quotation.
pub quote-Lacks : (b : ℕ) (v : Text) → IsAscii v → b < 32 → Lacks b (quote v)
unfolding quote
quote-Lacks b v h k =
    All-append (λ c. c ≢ b) (codes "\"") (quoted v ++ codes "\"") (ground arith, tt)
      (All-append (λ c. c ≢ b) (quoted v) (codes "\"") (All-Lacks b (quoted v) k (quoted-All v h))
        (ground arith, tt))
