-- ===== src/Cgroup/Applying.antt =====
-- `upsertCgroups` of tool/planet/cgroup.go. Whether the kernel has cgroup namespaces, the configuration
-- on disk, its write, the application of an entry and of the reserved resources are arguments.
pub mod Complete
use planet.Trace.{
  pure, lift, bad_parameter, is_not_found, ok, system, Exec, err, Error, Result, ◌>>=◌,
}
use planet.Cgroup.{CgroupEntry, default_config, CgroupConfig}
use planet.Strings.{has_suffix}
use planet.Base.{
  ℕ, Bool, true, false, not, ◌&&◌, ◌||◌, Option, none, some, List, [], ◌∷◌, ◌++◌, if◌then◌else◌,
  codes, is_empty,
}

-- The entries that were tried, the last one last, and whether some application failed.
pub record Applied : Type 0 where
  pub tried : List CgroupEntry
  pub failed : Bool

abbrev pub is_error : Option Error → Bool
is_error none = false
is_error (some _) = true

-- The loop over the entries; `systemd` and `v1` apply one.
unfoldable pub apply_entries :
    (CgroupEntry → Option Error)
    → (CgroupEntry → Option Error)
    → List CgroupEntry
    → Exec Applied (Unit {0})
apply_entries systemd v1 [] a = (ok tt, a)
apply_entries systemd v1 (e ∷ es) a =
    let applied = if has_suffix (codes ".slice") e.path then systemd e else v1 e in
    let rest =
      apply_entries systemd v1 es
        (record { tried = a.tried ++ e ∷ []; failed = a.failed || is_error applied }) in
    if is_empty e.path then (err bad_parameter, a) else rest

-- The configuration to apply. A missing one is made, and an automatic one is made anew.
unfoldable pub choose_config : Result CgroupConfig → ℕ → Bool → Result CgroupConfig
unfolding default_config
choose_config (err e) num_cpu is_master =
    if is_not_found e then ok (default_config num_cpu is_master) else err e
choose_config (ok config) num_cpu is_master =
    if config.enabled && config.auto then ok (default_config num_cpu is_master) else ok config

-- The errors that were gathered are one error of the kind `trace.Aggregate`.
abbrev pub gathered : Bool → Result (Unit {0})
gathered true = err (system 0)
gathered false = ok tt

unfoldable pub finish : Option Error → Result (Unit {0}) × Applied → Result (Unit {0}) × Applied
finish reserved (err e, a) = (err e, a)
finish reserved (ok _, a) =
    let failed = a.failed || is_error reserved in (gathered failed, record a { failed = failed })

unfoldable pub apply_config :
    (CgroupConfig → Result (Unit {0}))
    → (CgroupEntry → Option Error)
    → (CgroupEntry → Option Error)
    → (CgroupConfig → Option Error)
    → CgroupConfig
    → Exec Applied (Unit {0})
apply_config write systemd v1 reserve config a = elim (write config) [
  | err e ↦ (err e, a)
  | ok _ ↦ finish (reserve config) (apply_entries systemd v1 config.cgroups a)
]

unfoldable pub upsert_cgroups :
    Result Bool
    → Result CgroupConfig
    → ℕ
    → Bool
    → (CgroupConfig → Result (Unit {0}))
    → (CgroupEntry → Option Error)
    → (CgroupEntry → Option Error)
    → (CgroupConfig → Option Error)
    → Exec Applied (Unit {0})
upsert_cgroups namespaces found num_cpu is_master write systemd v1 reserve = do
  supported ← lift namespaces
  if not supported then pure tt else do
    config ← lift (choose_config found num_cpu is_master)
    if not config.enabled then pure tt else apply_config write systemd v1 reserve config
