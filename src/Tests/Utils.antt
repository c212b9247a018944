-- ===== src/Tests/Utils.antt =====
-- Writing a file that is there, with a call that fails, and a function that succeeds at its third run.
use planet.Trace.{ok, err, Exec, system}
use planet.Base.{
  ℕ, zero, suc, ◌+◌, ◌<◌, ◌≡◌, refl, ◌≢◌, ◌⊎◌, false, none, some, [], ◌∷◌, arith, ltb,
  if◌then◌else◌, Text, codes, text_eq,
}
use planet.Os.{Disk, file}
use planet.Utils.SafeFile.{safe_write, safe_write-atomic}
use planet.Utils.Retry.{runs, FirstSuccess, retry}

abbrev temp : Text
temp = codes "/etc/safewrite1"

abbrev target : Text
target = codes "/etc/hosts"

-- The disk is full at the write of the temporary file.
abbrev full : Disk
full = record {
  nodes = λ q. if text_eq target q then some (file (codes "old")) else none;
  faults = none ∷ some (record { error = system 28; done = 1; kept = λ q. false }) ∷ [];
}

temp-ne-target : text_eq temp target ≡ false
unfolding text_eq
temp-ne-target = refl

safe_write-atomic_example :
    (((safe_write temp target (codes "new") full).0 ≡ ok tt)
      × ((safe_write temp target (codes "new") full).1.nodes target ≡ some (file (codes "new"))))
    ⊎ (((safe_write temp target (codes "new") full).0 ≢ ok tt)
        × ((safe_write temp target (codes "new") full).1.nodes target ≡ full.nodes target))
safe_write-atomic_example = safe_write-atomic temp target (codes "new") temp-ne-target full

safe_write_fails : (safe_write temp target (codes "new") full).0 ≡ err (system 28)
unfolding safe_write text_eq
safe_write_fails = refl

-- The function counts its runs in the state and succeeds from the third one on.
abbrev third : Exec ℕ (Unit {0})
third n = (if ltb n 2 then err (system 1) else ok tt, n + 1)

third_at_two : FirstSuccess third 0 2
unfolding runs
third_at_two = record {
  succeeds = refl;
  fails = λ j lt.
      elim j as (λ i. i < 2 → (third (runs third i 0)).0 ≢ ok tt) [
        | zero ↦ λ _ e. cc
        | suc k ↦ λ l.
            elim k as (λ i. suc i < 2 → (third (runs third (suc i) 0)).0 ≢ ok tt) [
              | zero ↦ λ _ e. cc
              | suc m ↦ λ x. absurd (omega arith)
            ]
              l
      ]
        lt;
}

retry_succeeds : (retry 5 (false ∷ []) third 0).0 ≡ ok tt
unfolding retry
retry_succeeds = refl
