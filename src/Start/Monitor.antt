-- ===== src/Start/Monitor.antt =====
-- `monitorUnits` of tool/planet/start.go: the units are polled until all are active, 30 times at most.
-- `status i u` is what `getStatus` gives for the unit at poll number `i`. The map from units to their
-- states is the list of them in the order of the units; printing is left out.
pub mod Waiting
use planet.Base.{ℕ, zero, suc, List, [], ◌∷◌, if◌then◌else◌, Text, codes, text_eq, is_empty}

abbrev pub service_active : Text
service_active = codes "active"

-- One poll of every unit.
unfoldable pub poll : (ℕ → Text → Text) → ℕ → List Text → List (Text × Text)
poll status i [] = []
poll status i (u ∷ us) = (u, status i u) ∷ poll status i us

unfoldable pub inactive_units : List (Text × Text) → List Text
unfolding text_eq
inactive_units [] = []
inactive_units ((u, state) ∷ rest) =
    let others = inactive_units rest in if text_eq state service_active then others else u ∷ others

-- The units that are not active after the last poll; `left` polls are left.
unfoldable pub monitor_from : ℕ → ℕ → (ℕ → Text → Text) → List Text → List Text → List Text
unfolding poll inactive_units
monitor_from zero i status units last = last
monitor_from (suc left) i status units last =
    let inactive = inactive_units (poll status i units) in
    let rest = monitor_from left (suc i) status units inactive in
    if is_empty inactive then [] else rest

unfoldable pub monitor_units : (ℕ → Text → Text) → List Text → List Text
unfolding monitor_from
monitor_units status units = monitor_from 30 0 status units []
