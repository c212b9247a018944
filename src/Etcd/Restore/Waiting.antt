-- ===== src/Etcd/Restore/Waiting.antt =====
-- The waits end with success just where the awaited state is seen before the context is done.
use planet.Trace.{err, ok, Result}
use planet.Strings.{has_text}
use planet.Etcd.Restore.{wait_stopped}
use planet.Base.{
  ◌≡◌, refl, ◌↔◌, inl, inr, true, false, List, [], ◌∷◌, arith, Bool-cases, Text, codes,
}

-- A tick at which etcd still runs.
abbrev pub IsRunning : Result (List Text) → Type 0
IsRunning (ok running) = has_text (codes "etcd") running ≡ true
IsRunning (err e) = ⊥

-- The first ticks see etcd running, and the next one does not.
pub data Stops : List (Result (List Text)) → Type 0 where
  gone :
      (running : List Text) (ticks : List (Result (List Text)))
      → has_text (codes "etcd") running ≡ false
      → Stops (ok running ∷ ticks)
  later :
      (running : List Text) (ticks : List (Result (List Text)))
      → has_text (codes "etcd") running ≡ true
      → Stops ticks
      → Stops (ok running ∷ ticks)

wait_stopped-Stops : (ticks : List (Result (List Text))) → wait_stopped ticks ≡ ok tt → Stops ticks
unfolding wait_stopped
wait_stopped-Stops [] h = absurd (cc h)
wait_stopped-Stops (err e ∷ ticks) h = absurd (cc h)
wait_stopped-Stops (ok running ∷ ticks) h = elim (Bool-cases (has_text (codes "etcd") running)) [
  | inl e ↦ later running ticks e (wait_stopped-Stops ticks (ground (arith, e, h)))
  | inr e ↦ gone running ticks e
]

Stops-wait_stopped : (ticks : List (Result (List Text))) → Stops ticks → wait_stopped ticks ≡ ok tt
unfolding wait_stopped
Stops-wait_stopped _ (gone running ticks e) = rw e refl
Stops-wait_stopped _ (later running ticks e s) = rw e (Stops-wait_stopped ticks s)

-- `waitForEtcdStopped` ends with success exactly where, before the context is done and before the
-- processes cannot be listed, some tick sees no process of etcd.
wait_stopped_iff : (ticks : List (Result (List Text))) → (wait_stopped ticks ≡ ok tt) ↔ Stops ticks
wait_stopped_iff ticks = (wait_stopped-Stops ticks, Stops-wait_stopped ticks)
