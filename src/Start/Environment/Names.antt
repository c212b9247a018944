-- ===== src/Start/Environment/Names.antt =====
-- The variables that `start` sets do not clash.
use planet.Env.{has, EnvVars}
use planet.Trace.{ok_inj, ok, system, err}
use planet.Start.Environment.{Settings, base_env, with_base_env, has_role}
use planet.Env.Names.{IsUnique}
use mathlib.Core.Path.{subst}
use planet.Base.{
  ◌≡◌, refl, Bool, true, false, not, ◌&&◌, ◌||◌, List, [], ◌∷◌, map, arith, if◌then◌else◌, Text,
  codes, text_eq,
}

-- No name stands twice, as a test.
unfoldable has_name : Text → List Text → Bool
unfolding text_eq
has_name n [] = false
has_name n (m ∷ ms) = text_eq m n || has_name n ms

unfoldable distinct : List Text → Bool
unfolding has_name
distinct [] = true
distinct (n ∷ ns) = not (has_name n ns) && distinct ns

abbrev names : EnvVars → List Text
names = map (λ p. p.name)

has-has_name : (vars : EnvVars) (n : Text) → has vars n ≡ has_name n (names vars)
unfolding has has_name
has-has_name [] n = refl
has-has_name (p ∷ ps) n = ground (arith, has-has_name ps n)

distinct-IsUnique : (vars : EnvVars) → distinct (names vars) ≡ true → IsUnique vars
unfolding distinct
distinct-IsUnique [] h = tt
distinct-IsUnique (p ∷ ps) h =
    (ground (arith, has-has_name ps p.name, h), distinct-IsUnique ps (ground (arith, h)))

base_env-IsUnique : (role : Text) (c : Settings) → IsUnique (base_env role c)
unfolding base_env distinct has_name text_eq
base_env-IsUnique role c = distinct-IsUnique (base_env role c) refl

picked :
    (b : Bool) (roles : List Text) (c : Settings) (vars : EnvVars)
    → (if b
        then err (system 0)
        else elim roles [ [] ↦ err (system 0) | role ∷ _ ↦ ok (base_env role c) ])
      ≡ ok vars
    → IsUnique vars
picked true roles c vars h = absurd (cc h)
picked false [] c vars h = absurd (cc h)
picked false (role ∷ _) c vars h =
    subst IsUnique (ok_inj (base_env role c) vars h) (base_env-IsUnique role c)

-- Whatever the configuration: where no variable was set before, the environment that the start makes
-- holds no name twice.
pub with_base_env-IsUnique :
    (c : Settings) (vars : EnvVars) → with_base_env [] c ≡ ok vars → IsUnique vars
unfolding with_base_env
with_base_env-IsUnique c vars h =
    picked (not (has_role c.roles (codes "master")) && not (has_role c.roles (codes "node")))
      c.roles c vars h
