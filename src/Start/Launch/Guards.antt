-- ===== src/Start/Launch/Guards.antt =====
-- What has been checked where the container was started.
use planet.Base.{
  ℕ, ◌≡◌, sym, ap, ◌∙◌, Bool, true, false, not, ◌||◌, List, [], arith, ltb, if◌then◌else◌, Text,
  codes,
}
use planet.Box.Boot.{BoxHost}
use planet.Box.Container.{BoxConfig}
use planet.Start.Environment.{has_role, with_base_env}
use planet.Start.Files.{Assembly}
use planet.Start.Launch.{
  LaunchConfig, LaunchHost, check_host, validate_mounts, set_variables, assemble, master_units,
  node_units, modify, start, boot, watched_units, min_kernel_version,
}
use planet.Start.Launch.Mounted.{with_user, validated, with_user-mounts, assemble-steps}
use planet.Start.Required.{check_required_mounts, etcd_work_dir, docker_work_dir, registry_work_dir}
use planet.Start.Required.Present.{is_mounted, check_required_mounts_lem}
use planet.Trace.{Result, ok, err, continue_ok, then_ok}

-- The kernel is known, and it is new enough or the check is switched off.
abbrev pub is_accepted : Result ℕ → Bool → Bool
is_accepted (ok v) ignore_checks = not (ltb v min_kernel_version) || ignore_checks
is_accepted (err e) ignore_checks = false

module _ {K : Type 0} (h : LaunchHost K) (c : LaunchConfig) (s : Assembly) where
  check_host-ok :
      (check_host h c s).0 ≡ ok tt
      → (s.config.selinux || h.is_root ≡ true)
        × (is_accepted h.kernel c.ignore_checks ≡ true)
        × (h.mounted_cgroups ≡ ok tt)
  unfolding check_host
  check_host-ok e = ground arith

  set_variables-ok :
      (set_variables h c s).0 ≡ ok tt
      → has_role c.settings.roles (codes "master") || has_role c.settings.roles (codes "node")
        ≡ true
  unfolding set_variables with_base_env
  set_variables-ok e = ground arith

  validate_mounts-ok :
      (validate_mounts h c s).0 ≡ ok tt
      → (is_mounted h.clean etcd_work_dir s.mounts ≡ true)
        × (is_mounted h.clean docker_work_dir s.mounts ≡ true)
        × (is_mounted h.clean registry_work_dir s.mounts ≡ true)
  unfolding validate_mounts
  validate_mounts-ok e =
      let run =
        check_required_mounts h.clean h.under h.is_btrfs s.config.docker_backend s.mounts s.disk in
      let (r, p, q) =
        then_ok run.0 (λ backend. modify (λ x. record x { docker_backend = backend }))
          (record s { disk = run.1 }) tt e in
      let found =
        check_required_mounts_lem h.clean h.under h.is_btrfs s.config.docker_backend r s.mounts
          s.disk p in
      (found.0, found.1, found.2)

  boot-units :
      (cfg : BoxConfig) (x : BoxHost) (units : List Text)
      → (boot h c cfg x).0 ≡ ok units
      → units ≡ watched_units h c
  unfolding boot
  boot-units cfg x units e = ground arith

  -- The container starts from an assembled configuration.
  pub start-assembled :
      (units : List Text)
      → (start h c s).0 ≡ ok units
      → (cfg : BoxConfig) × ((assemble h c s).0 ≡ ok cfg) × (units ≡ watched_units h c)
  unfolding start
  start-assembled units e =
      let (cfg, p, q) =
        continue_ok (assemble h c s).0 (boot h c)
          (record { disk = (assemble h c s).1.disk; events = [] }) units e in
      (cfg, p, boot-units cfg _ units (sym (ap (λ x. x.0) q) ∙ e))

-- Where `start` succeeds: SELinux is on or the user is root, the kernel is known and new enough unless
-- the checks are ignored, the cgroups are mounted, the mounts of the configuration hold those for etcd,
-- docker and the registry, the node is a master or a node, and the units that are watched from then on
-- are those of a master exactly if it is one.
pub start_guards :
    {K : Type 0}
    → (h : LaunchHost K) (c : LaunchConfig) (s : Assembly) (units : List Text)
    → (start h c s).0 ≡ ok units
    → (s.config.selinux || h.is_root ≡ true)
      × (is_accepted h.kernel c.ignore_checks ≡ true)
      × (h.mounted_cgroups ≡ ok tt)
      × (is_mounted h.clean etcd_work_dir s.mounts ≡ true)
      × (is_mounted h.clean docker_work_dir s.mounts ≡ true)
      × (is_mounted h.clean registry_work_dir s.mounts ≡ true)
      × (has_role c.settings.roles (codes "master") || has_role c.settings.roles (codes "node")
          ≡ true)
      × (units ≡ (
          if has_role c.settings.roles (codes "master") then master_units h c else node_units h c))
start_guards h c s units e =
    let (cfg, p, q) = start-assembled h c s units e in
    let steps = assemble-steps h c s cfg p in
    let host = check_host-ok h c s steps.0 in
    let found = validate_mounts-ok h c (with_user h c s) steps.1 in
    let same = with_user-mounts h c s in
    (
      host.0,
      host.1,
      host.2,
      ap (is_mounted h.clean etcd_work_dir) (sym same) ∙ found.0,
      ap (is_mounted h.clean docker_work_dir) (sym same) ∙ found.1,
      ap (is_mounted h.clean registry_work_dir) (sym same) ∙ found.2,
      set_variables-ok h c (validated h c s) steps.2,
      q,
    )
