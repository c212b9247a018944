-- ===== src/Etcd/Enable/Guards.antt =====
-- When enabling etcd touches the cluster.
use mathlib.Core.Path.{subst}
use planet.Trace.{ok, pure, Exec}
use planet.Utils.Retry.{retry_success, FirstSuccess, runs, retry}
use planet.Etcd.Enable.{cluster_state_name, must_join, etcd_init_join}
use planet.Etcd.Upgrade.{proxy_name}
use planet.Env.{get, EnvVars}
use planet.Base.{
  ℕ, suc, ◌<◌, ◌≡◌, refl, ◌≢◌, ◌⊎◌, inl, inr, Bool, true, false, List, [], arith, if◌then◌else◌,
  Text, codes, text_eq_iff,
}

-- A proxy, a node of a new cluster, or no master to join at.
abbrev pub NothingToJoin : EnvVars → Text → Type 0
NothingToJoin env master =
    (get env proxy_name ≡ codes "on")
    ⊎ (get env cluster_state_name ≢ codes "existing")
    ⊎ (master ≡ [])

-- A node of an existing cluster that is no proxy, with a master to join at.
abbrev pub HasToJoin : EnvVars → Text → Type 0
HasToJoin env master =
    (get env proxy_name ≢ codes "on")
    × (get env cluster_state_name ≡ codes "existing")
    × (master ≢ [])

must_join-cases :
    (env : EnvVars) (master : Text)
    → ((must_join env master ≡ false) × NothingToJoin env master)
      ⊎ ((must_join env master ≡ true) × HasToJoin env master)
unfolding must_join
must_join-cases env master =
    let proxy = text_eq_iff (get env proxy_name) (codes "on") in
    let state = text_eq_iff (get env cluster_state_name) (codes "existing") in
    ground (arith, proxy, state)

-- A join that succeeds has left the state alone on a proxy, on a node of a new cluster and where no
-- master is named; on any other node some attempt has succeeded, it was the first to, and the state is
-- the one behind it.
pub etcd_init_join_lem :
    {S : Type 0}
    → (more : ℕ) (schedule : List Bool) (attempt_join : EnvVars → Exec S (Unit {0})) (env : EnvVars)
      (master : Text) (s : S)
    → (etcd_init_join (suc more) schedule attempt_join (ok env) master s).0 ≡ ok tt
    → (NothingToJoin env master
        × ((etcd_init_join (suc more) schedule attempt_join (ok env) master s).1 ≡ s))
      ⊎ (HasToJoin env master
          × ((k : ℕ) × (k < suc more)
              × FirstSuccess (attempt_join env) s k
              × ((etcd_init_join (suc more) schedule attempt_join (ok env) master s).1
                  ≡ runs (attempt_join env) (suc k) s)))
unfolding etcd_init_join
etcd_init_join_lem more schedule attempt_join env master s h = elim (must_join-cases env master) [
  | inr (e, joins) ↦
      (let joined =
          subst
            (λ b.
              (if◌then◌else◌ b (retry (suc more) schedule (attempt_join env)) (pure tt) s).0
              ≡ ok tt)
            e h in
        inr (joins, rw e (retry_success more schedule (attempt_join env) s joined)))
  | inl (e, nothing) ↦ inl (nothing, rw e refl)
]
