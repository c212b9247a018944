-- ===== src/Utils/Retry.antt =====
-- `Retry` of lib/utils/retry.go: the function may change a state; after a failed attempt the context
-- may turn out to be cancelled, by a schedule that is given, or a period passes.
use Prim.Native.Nat.add
use planet.Base.{
  ℕ, zero, suc, ◌+◌, ◌<◌, ◌≡◌, refl, sym, ap, ◌∙◌, ◌≢◌, ◌⊎◌, inl, inr, Bool, true, false, List, [],
  ◌∷◌, arith, Bool-cases,
}
use planet.Trace.{aborted, Error, Result, ok, err, Exec}

-- What `select` chooses after each attempt: `true` where the context is done. Past the end of the
-- schedule it never is.
abbrev pub cancelled : List Bool → Bool
cancelled [] = false
cancelled (c ∷ cs) = c

abbrev pub later : List Bool → List Bool
later [] = []
later (c ∷ cs) = cs

pub result_cases : (r : Result (Unit {0})) → (r ≡ ok tt) ⊎ ((e : Error) × (r ≡ err e))
result_cases (ok _) = inl refl
result_cases (err e) = inr (e, refl)

module _ {S : Type 0} where
  -- `left` attempts are left, and `last` is the result of the attempts so far.
  unfoldable pub retry_from :
      ℕ → List Bool → Exec S (Unit {0}) → Result (Unit {0}) → Exec S (Unit {0})
  retry_from zero schedule fn last s = (last, s)
  retry_from (suc left) schedule fn last s =
      let (r, s') = fn s in
      elim r [
        | ok _ ↦ (ok tt, s')
        | err e ↦ elim (cancelled schedule) [
          | true ↦ (err e, s')
          | false ↦ retry_from left (later schedule) fn (err e) s'
        ]
      ]

  -- `Retry`: no attempt at all is a success.
  unfoldable pub retry : ℕ → List Bool → Exec S (Unit {0}) → Exec S (Unit {0})
  unfolding retry_from
  retry times schedule fn = retry_from times schedule fn (ok tt)

  -- The state after the function has run `n` times.
  unfoldable pub runs : Exec S (Unit {0}) → ℕ → S → S
  runs fn zero s = s
  runs fn (suc n) s = runs fn n (fn s).1

  -- The function succeeds at its run number `k`, counted from 0, and at none before.
  pub record FirstSuccess (fn : Exec S (Unit {0})) (s : S) (k : ℕ) : Type 0 where
    pub succeeds : (fn (runs fn k s)).0 ≡ ok tt
    pub fails : (j : ℕ) → j < k → (fn (runs fn j s)).0 ≢ ok tt

  later_success :
      (fn : Exec S (Unit {0})) (s : S) (k : ℕ)
      → (fn s).0 ≢ ok tt
      → FirstSuccess fn (fn s).1 k
      → FirstSuccess fn s (suc k)
  unfolding runs
  later_success fn s k h f = record {
    succeeds = f.succeeds;
    fails = λ j lt.
        elim j as (λ i. i < suc k → (fn (runs fn i s)).0 ≢ ok tt) [
          | zero ↦ λ _. h
          | suc i ↦ λ l. f.fails i (omega arith)
        ]
          lt;
  }

  module _ (t : ℕ) (schedule : List Bool) (fn : Exec S (Unit {0})) (last : Result (Unit {0}))
      (s : S) where
    step_success : (fn s).0 ≡ ok tt → retry_from (suc t) schedule fn last s ≡ (ok tt, (fn s).1)
    unfolding retry_from
    step_success h = rw (h, retry_from)

    step_cancelled :
        (e : Error)
        → (fn s).0 ≡ err e
        → cancelled schedule ≡ true
        → retry_from (suc t) schedule fn last s ≡ (err e, (fn s).1)
    unfolding retry_from
    step_cancelled e h c = rw (h, retry_from) (rw c refl)

    step_failure :
        (e : Error)
        → (fn s).0 ≡ err e
        → cancelled schedule ≡ false
        → retry_from (suc t) schedule fn last s ≡ retry_from t (later schedule) fn (err e) (fn s).1
    unfolding retry_from
    step_failure e h c = rw (h, retry_from) (rw c refl)

  retry_from_success :
      (times : ℕ) (schedule : List Bool) (fn : Exec S (Unit {0})) (last : Result (Unit {0})) (s : S)
      → last ≢ ok tt
      → (retry_from times schedule fn last s).0 ≡ ok tt
      → (k : ℕ) × (k < times)
        × FirstSuccess fn s k
        × ((retry_from times schedule fn last s).1 ≡ runs fn (suc k) s)
  unfolding runs
  retry_from_success zero schedule fn last s n h = absurd (n (unfold retry_from in h))
  retry_from_success (suc t) schedule fn last s n h = elim (result_cases (fn s).0) [
    | inl a ↦ (
      0,
      omega arith,
      record { succeeds = a; fails = λ j lt. absurd (omega arith) },
      rw (step_success t schedule fn last s a) refl,
    )
    | inr (e, a) ↦ elim (Bool-cases (cancelled schedule)) [
      | inl c ↦ absurd (cc (step_cancelled t schedule fn last s e a c, h))
      | inr c ↦
          let go = step_failure t schedule fn last s e a c in
          let ih =
            retry_from_success t (later schedule) fn (err e) (fn s).1 (λ x. cc)
              (ap (λ (p : Result (Unit {0}) × S). p.0) (sym go) ∙ h) in
          (suc ih.0, omega (arith, ih.1), later_success fn s ih.0 (λ x. cc) ih.2, rw go ih.3)
    ]
  ]

  -- Where `Retry` with at least one attempt succeeds, one of the allowed attempts succeeded, none
  -- before it did, and nothing was run after it.
  pub retry_success :
      (times : ℕ) (schedule : List Bool) (fn : Exec S (Unit {0})) (s : S)
      → (retry (suc times) schedule fn s).0 ≡ ok tt
      → (k : ℕ) × (k < suc times)
        × FirstSuccess fn s k
        × ((retry (suc times) schedule fn s).1 ≡ runs fn (suc k) s)
  unfolding retry retry_from
  retry_success times schedule fn s h =
      retry_from_success (suc times) schedule fn (err aborted) s (λ x. cc) h

  retry_from_finds :
      (k more : ℕ) (fn : Exec S (Unit {0})) (last : Result (Unit {0})) (s : S)
      → FirstSuccess fn s k
      → retry_from (suc (k + more)) [] fn last s ≡ (ok tt, runs fn (suc k) s)
  unfolding runs
  retry_from_finds zero more fn last s f = step_success (0 + more) [] fn last s f.succeeds
  retry_from_finds (suc k) more fn last s f = elim (result_cases (fn s).0) [
    | inl a ↦ absurd (f.fails 0 (omega arith) a)
    | inr (e, a) ↦
        let rest : FirstSuccess fn (fn s).1 k = record {
          succeeds = f.succeeds;
          fails = λ j lt. f.fails (suc j) (omega arith);
        } in
        rw add.suc (
          step_failure (suc (k + more)) [] fn last s e a refl
          ∙ retry_from_finds k more fn (err e) (fn s).1 rest)
  ]

  -- Where no cancellation comes, the first success among the allowed attempts is found.
  retry_finds :
      (k more : ℕ) (fn : Exec S (Unit {0})) (s : S)
      → FirstSuccess fn s k
      → retry (suc (k + more)) [] fn s ≡ (ok tt, runs fn (suc k) s)
  unfolding retry
  retry_finds k more fn s f = retry_from_finds k more fn (ok tt) s f
