-- ===== src/Start/Launch/Mounted.antt =====
-- The mounts that the container is started with.
use planet.Base.{◌≡◌, refl, ap, ◌∙◌, [], ◌∷◌, ◌++◌, append_assoc, arith}
use planet.Box.Container.{BoxConfig}
use planet.Start.Files.{
  Assembly, set_options, add_kubelet_options, add_resolv_file, set_core_dns, set_hosts,
  set_hostname, mount_secrets, resolv_mount, secrets_mount,
}
use planet.Start.Options.{add_docker_options, add_etcd_options, add_component_options}
use planet.Start.Proxy.{configure_proxy}
use planet.Start.Services.{setup_flannel, install_unit}
use planet.Start.Launch.{
  LaunchConfig, LaunchHost, check_host, choose_backend, add_service_user, validate_mounts,
  set_variables, set_cloud, set_components, set_resolver, set_files, assemble, box_config,
  with_files,
}
use planet.Trace.{ok}

module _ {K : Type 0} (h : LaunchHost K) (c : LaunchConfig) (s : Assembly) where
  check_host-mounts : (check_host h c s).1.mounts ≡ s.mounts
  unfolding check_host
  check_host-mounts = ground arith

  choose_backend-mounts : (choose_backend h c s).1.mounts ≡ s.mounts
  unfolding choose_backend
  choose_backend-mounts = ground arith

  add_service_user-mounts : (add_service_user h c s).1.mounts ≡ s.mounts
  unfolding add_service_user
  add_service_user-mounts = ground arith

  validate_mounts-mounts : (validate_mounts h c s).1.mounts ≡ s.mounts
  unfolding validate_mounts
  validate_mounts-mounts = ground arith

  set_variables-mounts : (set_variables h c s).1.mounts ≡ s.mounts
  unfolding set_variables
  set_variables-mounts = ground arith

  set_cloud-mounts : (set_cloud h c s).1.mounts ≡ s.mounts
  unfolding set_cloud with_files
  set_cloud-mounts = ground arith

  set_components-mounts : (set_components h c s).1.mounts ≡ s.mounts
  unfolding set_components add_kubelet_options set_options set_cloud with_files
  set_components-mounts = ground arith

  -- The root of the container stays where it is.
  check_host-rootfs : (check_host h c s).1.config.rootfs ≡ s.config.rootfs
  unfolding check_host
  check_host-rootfs = ground arith

  choose_backend-rootfs : (choose_backend h c s).1.config.rootfs ≡ s.config.rootfs
  unfolding choose_backend
  choose_backend-rootfs = ground arith

  add_service_user-rootfs : (add_service_user h c s).1.config.rootfs ≡ s.config.rootfs
  unfolding add_service_user
  add_service_user-rootfs = ground arith

  validate_mounts-rootfs : (validate_mounts h c s).1.config.rootfs ≡ s.config.rootfs
  unfolding validate_mounts
  validate_mounts-rootfs = ground arith

  set_variables-rootfs : (set_variables h c s).1.config.rootfs ≡ s.config.rootfs
  unfolding set_variables
  set_variables-rootfs = ground arith

  set_resolver-mounts :
      (set_resolver h c s).0 ≡ ok tt
      → (set_resolver h c s).1.mounts ≡ s.mounts ++ resolv_mount s.config.rootfs ∷ []
  unfolding set_resolver add_resolv_file set_core_dns
  set_resolver-mounts e = ground arith

  set_files-mounts :
      (set_files h c s).0 ≡ ok tt
      → (set_files h c s).1.mounts ≡ s.mounts ++ secrets_mount c.secrets_dir ∷ []
  unfolding set_files mount_secrets set_hosts set_hostname
  set_files-mounts e = ground arith

  set_files-rootfs : (set_files h c s).1.config.rootfs ≡ s.config.rootfs
  unfolding set_files mount_secrets set_hosts set_hostname
  set_files-rootfs = ground arith

module _ {K : Type 0} (h : LaunchHost K) (c : LaunchConfig) (s : Assembly) where
  set_components-rootfs : (set_components h c s).1.config.rootfs ≡ s.config.rootfs
  unfolding set_components add_kubelet_options set_options set_cloud with_files add_docker_options
      add_etcd_options configure_proxy setup_flannel install_unit add_component_options
  set_components-rootfs = ground arith

-- The states behind the steps.
module _ {K : Type 0} (h : LaunchHost K) (c : LaunchConfig) (s : Assembly) where
  abbrev pub checked : Assembly
  checked = (check_host h c s).1

  abbrev pub chosen : Assembly
  chosen = (choose_backend h c checked).1

  abbrev pub with_user : Assembly
  with_user = (add_service_user h c chosen).1

  abbrev pub validated : Assembly
  validated = (validate_mounts h c with_user).1

  abbrev pub with_variables : Assembly
  with_variables = (set_variables h c validated).1

  abbrev pub with_components : Assembly
  with_components = (set_components h c with_variables).1

  abbrev pub resolved : Assembly
  resolved = (set_resolver h c with_components).1

  pub with_user-mounts : with_user.mounts ≡ s.mounts
  with_user-mounts =
      add_service_user-mounts h c chosen
      ∙ choose_backend-mounts h c checked
      ∙ check_host-mounts h c s

  with_components-mounts : with_components.mounts ≡ s.mounts
  with_components-mounts =
      set_components-mounts h c with_variables
      ∙ set_variables-mounts h c validated
      ∙ validate_mounts-mounts h c with_user
      ∙ with_user-mounts

  with_components-rootfs : with_components.config.rootfs ≡ s.config.rootfs
  with_components-rootfs =
      set_components-rootfs h c with_variables
      ∙ set_variables-rootfs h c validated
      ∙ validate_mounts-rootfs h c with_user
      ∙ add_service_user-rootfs h c chosen
      ∙ choose_backend-rootfs h c checked
      ∙ check_host-rootfs h c s

  resolved-rootfs : resolved.config.rootfs ≡ s.config.rootfs
  unfolding set_resolver add_resolv_file set_core_dns
  resolved-rootfs = ground (arith, with_components-rootfs)

  -- Every step has succeeded.
  pub assemble-steps :
      (cfg : BoxConfig)
      → (assemble h c s).0 ≡ ok cfg
      → ((check_host h c s).0 ≡ ok tt)
        × ((validate_mounts h c with_user).0 ≡ ok tt)
        × ((set_variables h c validated).0 ≡ ok tt)
        × ((set_resolver h c with_components).0 ≡ ok tt)
        × ((set_files h c resolved).0 ≡ ok tt)
        × (cfg ≡ box_config h c (set_files h c resolved).1)
  unfolding assemble
  assemble-steps cfg e = ground arith

  -- Where everything before the start of the container succeeds: the container gets the mounts of the
  -- configuration in their order, behind them the resolver's file of its own root, and last the secrets,
  -- and its root is the one of the configuration.
  pub assemble-mounts :
      (cfg : BoxConfig)
      → (assemble h c s).0 ≡ ok cfg
      → (cfg.mounts ≡ s.mounts ++ (resolv_mount s.config.rootfs ∷ secrets_mount c.secrets_dir ∷ []))
        × (cfg.rootfs ≡ s.config.rootfs)
  unfolding box_config
  assemble-mounts cfg e =
      let steps = assemble-steps cfg e in
      let mounts = set_resolver-mounts h c with_components steps.3 in
      let secrets = set_files-mounts h c resolved steps.4 in
      (
        ap (λ x. x.mounts) steps.5
            ∙ secrets
            ∙ ap (λ x. x ++ secrets_mount c.secrets_dir ∷ []) mounts
            ∙ append_assoc with_components.mounts _ _
            ∙ rw (with_components-mounts, with_components-rootfs) refl,
        ap (λ x. x.rootfs) steps.5 ∙ set_files-rootfs h c resolved ∙ resolved-rootfs,
      )
