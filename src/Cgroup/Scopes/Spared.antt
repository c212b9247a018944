-- ===== src/Cgroup/Scopes/Spared.antt =====
-- Which scopes are left alone.
use planet.Trace.{Result, ok, err}
use planet.Cgroup.Scopes.{is_run_scope, Visited, walk, stop_empty}
use planet.Base.{
  ◌≡◌, refl, ◌↔◌, ◌⊎◌, inl, inr, true, List, [], ◌∷◌, if◌then◌else◌, Bool-cases, Text, is_empty,
}

-- Some directory of the walk, before its first error, is a run scope older than a minute whose process
-- list can be read and is empty, and this is its name.
abbrev pub IsIdle : (Text → Text) → (Text → Result Text) → List (Result Visited) → Text → Type 0
IsIdle base pids [] u = ⊥
IsIdle base pids (err _ ∷ vs) u = ⊥
IsIdle base pids (ok v ∷ vs) u =
    ((is_run_scope v ≡ true) × (pids v.path ≡ ok []) × (base v.path ≡ u)) ⊎ IsIdle base pids vs u

-- `u` stands in a list.
abbrev pub IsIn : Text → List Text → Type 0
IsIn u [] = ⊥
IsIn u (x ∷ xs) = (x ≡ u) ⊎ IsIn u xs

-- What one path adds.
stop_empty-cons :
    (base : Text → Text) (pids : Text → Result Text) (p : Text) (ps : List Text) (r : Result Text)
    (u : Text)
    → pids p ≡ r
    → IsIn u (elim r [
      | err e ↦ stop_empty base pids ps
      | ok listed ↦
          if is_empty listed then base p ∷ stop_empty base pids ps else stop_empty base pids ps
    ])
      ↔ (((pids p ≡ ok []) × (base p ≡ u)) ⊎ IsIn u (stop_empty base pids ps))
stop_empty-cons base pids p ps (err x) u e =
    ((λ i. inr i), λ s. elim s [ inl (k, _) ↦ absurd (cc (e, k)) | inr i ↦ i ])
stop_empty-cons base pids p ps (ok []) u e = (
  (λ s. elim s [ inl b ↦ inl (e, b) | inr i ↦ inr i ]),
  λ s. elim s [ inl (_, b) ↦ inl b | inr i ↦ inr i ],
)
stop_empty-cons base pids p ps (ok (c ∷ t)) u e =
    ((λ i. inr i), λ s. elim s [ inl (k, _) ↦ absurd (cc (e, k)) | inr i ↦ i ])

-- Systemd is asked to stop a unit exactly where, before the first error of the walk, some directory is a
-- run scope older than a minute, of that name, whose process list can be read and is empty.
stop_empty_iff :
    (base : Text → Text) (pids : Text → Result Text) (visited : List (Result Visited)) (u : Text)
    → IsIn u (stop_empty base pids (walk visited)) ↔ IsIdle base pids visited u
unfolding stop_empty walk
stop_empty_iff base pids [] u = ((λ i. i), λ i. i)
stop_empty_iff base pids (err e ∷ vs) u = ((λ i. i), λ i. i)
stop_empty_iff base pids (ok v ∷ vs) u =
    let ih = stop_empty_iff base pids vs u in
    let one = stop_empty-cons base pids v.path (walk vs) (pids v.path) u refl in
    elim (Bool-cases (is_run_scope v)) [
      | inl e ↦ rw e (
        (λ i. elim (one.0 i) [ inl (k, b) ↦ inl (refl, k, b) | inr j ↦ inr (ih.0 j) ]),
        λ s. elim s [ inl (_, k, b) ↦ one.1 (inl (k, b)) | inr j ↦ one.1 (inr (ih.1 j)) ],
      )
      | inr e ↦
          rw e ((λ i. inr (ih.0 i)), λ s. elim s [ inl (x, _, _) ↦ absurd (cc x) | inr j ↦ ih.1 j ])
    ]
