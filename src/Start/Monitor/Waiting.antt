-- ===== src/Start/Monitor/Waiting.antt =====
-- What `monitorUnits` reports.
use mathlib.Core.Path.{subst}
use planet.Start.Monitor.{monitor_units, monitor_from, poll, inactive_units, service_active}
use planet.Base.{
  ℕ, zero, suc, ◌+◌, ◌<◌, ◌≡◌, refl, ap, ◌↔◌, inl, inr, true, false, List, [], ◌∷◌, arith,
  Bool-cases, Text, text_eq_iff, is_empty, All,
}

abbrev pub AllActive : (ℕ → Text → Text) → ℕ → List Text → Type 0
AllActive status i units = All (λ u. status i u ≡ service_active) units

inactive_units-poll :
    (status : ℕ → Text → Text) (i : ℕ) (units : List Text)
    → (inactive_units (poll status i units) ≡ []) ↔ AllActive status i units
unfolding inactive_units poll
inactive_units-poll status i [] = ground arith
inactive_units-poll status i (u ∷ us) =
    ground (arith, text_eq_iff (status i u) service_active, inactive_units-poll status i us)

is_empty-true : (xs : List Text) → is_empty xs ≡ true → xs ≡ []
is_empty-true [] h = refl
is_empty-true (x ∷ xs) h = absurd (ground arith)

monitor_from_done :
    (left i : ℕ) (status : ℕ → Text → Text) (units last : List Text)
    → is_empty last ≡ false
    → is_empty (monitor_from left i status units last) ≡ true
    → (k : ℕ) × (k < left) × AllActive status (i + k) units
unfolding monitor_from
monitor_from_done zero i status units last ne h = absurd (ground (arith, ne, h))
monitor_from_done (suc left) i status units last ne h =
    let inactive = inactive_units (poll status i units) in
    elim (Bool-cases (is_empty inactive)) [
      | inl e ↦ (
        0,
        (omega arith),
        subst (λ n. AllActive status n units) (omega arith)
            ((inactive_units-poll status i units).0 (is_empty-true inactive e)),
      )
      | inr e ↦
          let more : is_empty (monitor_from left (suc i) status units inactive) ≡ true =
            ground (arith, e, h) in
          let (k, lt, all) = monitor_from_done left (suc i) status units inactive e more in
          (suc k, (omega arith), subst (λ n. AllActive status n units) (omega arith) all)
    ]

-- `monitorUnits` reports no unit only where at one of its 30 polls every unit was active.
monitor_units_done :
    (status : ℕ → Text → Text) (u : Text) (us : List Text)
    → monitor_units status (u ∷ us) ≡ []
    → (k : ℕ) × (k < 30) × AllActive status k (u ∷ us)
unfolding monitor_units
monitor_units_done status u us h =
    let (k, lt, all) = monitor_from_done 30 0 status (u ∷ us) (u ∷ []) refl (ap is_empty h) in
    (k, lt, subst (λ n. AllActive status n (u ∷ us)) (omega arith) all)
