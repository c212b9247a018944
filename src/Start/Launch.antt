-- ===== src/Start/Launch.antt =====
-- `start` of tool/planet/start.go as a whole: what each step does to the configuration, the disk, the
-- mounts and the files, in the order of the program, up to the start of the container by lib/box. What
-- stands outside is in `LaunchHost`, the fields of `Config` that no step changes are in
-- `LaunchConfig`. A field of the source that several of these records have is the same in each.
pub mod Guards
pub mod Mounted
use planet.Base.{
  ℕ, Bool, false, not, ◌||◌, List, [], ◌∷◌, ◌++◌, map, ltb, if◌then◌else◌, Text, codes, is_empty,
}
use planet.Box.Boot.{BoxHost, World}
use planet.Box.Boot
use planet.Box.Container.{BoxConfig}
use planet.Box.Devices.{Device}
use planet.Box.Mounts.{host_state_dir}
use planet.Env.{EnvVars}
use planet.Start.{Config}
use planet.Start.Cloud.{CloudSettings, add_cloud_options, pick_docker_storage_backend}
use planet.Start.Environment.{Settings, has_role, resolver_env, with_base_env}
use planet.Start.Files.{
  Assembly, Dns, KubeletLibrary, add_kubelet_options, add_resolv_file, local_hosts, mount_secrets,
  on_disk, set_core_dns, set_hostname, set_hosts,
}
use planet.Start.KubeConfig.{add_kube_config, set_kube_config_ownership}
use planet.Start.Options.{add_component_options, add_docker_options, add_etcd_options}
use planet.Start.Proxy.{configure_proxy}
use planet.Start.Resolv.{elements}
use planet.Start.Required.{check_required_mounts}
use planet.Start.Services.{Setup, setup_etcd, setup_flannel}
use planet.Trace.{
  Result, ok, Error, compare_failed, system, Exec, pure, raise, lift, continue, ◌>>=◌, ◌>>◌,
}
use planet.Users.{User, Group}
use planet.Users.Container.{add_user_to_container, add_group_to_container}

pub record LaunchConfig : Type 0 where
  pub settings : Settings
  pub cloud : CloudSettings
  pub dns : Dns
  pub devices : List Device
  pub ignore_checks : Bool
  pub secrets_dir : Text
  pub hostname : Text
  pub kubelet_options : Text
  pub kubelet_config : Text
  pub service_user : User
  pub api_server_ip : Text

-- Answers of the host and of other packages. `mounted_cgroups` is what `box.MountCgroups` returns, and
-- `parse_users` and `parse_groups` are runc's.
pub record LaunchHost (K : Type 0) : Type 0 where
  pub is_root : Bool
  pub kernel : Result ℕ
  pub mounted_cgroups : Result (Unit {0})
  pub supports : Text → Result Bool
  pub parse_users : Text → Result (List User)
  pub parse_groups : Text → Result (List Group)
  pub service_group : Result Group
  pub clean : Text → Text
  pub under : Text → List Text
  pub is_btrfs : Text → Bool
  pub lower_first : Bool
  pub host_config_first : Bool
  pub decode : Text → Result Text
  pub aws : Result Text
  pub gce : Result Text
  pub kubelet : KubeletLibrary K
  pub conflist : Text
  pub parent : Text → Text
  pub temp : Text → Text
  pub resolv_path : Result Text
  pub capabilities : List Text
  pub listener : Result (Unit {0})
  pub box : World

abbrev guard : {S : Type 0} → Bool → Error → Exec S (Unit {0})
guard b e = if b then pure tt else raise e

abbrev pub modify : (Config → Config) → Exec Assembly (Unit {0})
modify f s = (ok tt, record s { config = f s.config })

abbrev pub min_kernel_version : ℕ
min_kernel_version = 310

-- `setupFlannel` works on the configuration and the disk.
abbrev pub in_setup : Exec Setup (Unit {0}) → Exec Assembly (Unit {0})
in_setup m s =
    let (r, t) = m (record { config = s.config; disk = s.disk }) in
    (r, record s { config = t.config; disk = t.disk })

unfoldable pub with_files : EnvVars × List (Text × Text) → Exec Assembly (Unit {0})
with_files (env, fs) s = (
  ok tt,
  record s {
    config = record s.config { env = env };
    files =
        s.files
        ++ map (λ f. record { path = f.0; contents = f.1; has_mode = false; has_owners = false })
            fs;
  },
)

module _ {K : Type 0} (h : LaunchHost K) (c : LaunchConfig) where
  -- The user, the kernel and the cgroups.
  unfoldable pub check_host : Exec Assembly (Unit {0})
  check_host s =
      (do
        guard (s.config.selinux || h.is_root) compare_failed
        v ← lift h.kernel
        guard (not (ltb v min_kernel_version) || c.ignore_checks) (system 0)
        lift h.mounted_cgroups)
        s

  -- A storage driver that is not configured is picked.
  unfoldable pub choose_backend : Exec Assembly (Unit {0})
  choose_backend s =
      (if is_empty s.config.docker_backend
          then (do
            backend ← lift (pick_docker_storage_backend h.supports)
            modify (λ x. record x { docker_backend = backend }))
          else pure tt)
        s

  unfoldable pub add_service_user : Exec Assembly (Unit {0})
  add_service_user s =
      (do
        on_disk (add_user_to_container h.parse_users s.config.rootfs c.service_user)
        on_disk (add_group_to_container h.parse_groups h.service_group s.config.rootfs))
        s

  unfoldable pub validate_mounts : Exec Assembly (Unit {0})
  validate_mounts s =
      (do
        backend ←
            on_disk
              (check_required_mounts h.clean h.under h.is_btrfs s.config.docker_backend s.mounts)
        modify (λ x. record x { docker_backend = backend }))
        s

  -- The check of the roles and the variables behind it.
  unfoldable pub set_variables : Exec Assembly (Unit {0})
  set_variables s =
      (do env ← lift (with_base_env s.config.env c.settings); modify (λ x. record x { env = env }))
        s

  unfoldable pub set_cloud : Exec Assembly (Unit {0})
  unfolding with_files
  set_cloud s =
      (do
        added ← lift (add_cloud_options h.decode h.aws h.gce c.cloud s.config.env)
        with_files added)
        s

  abbrev pub component_options : Exec Assembly (Unit {0})
  component_options s = (do x ← lift (add_component_options (ok s.config)); modify (λ _. x)) s

  -- Proxy settings, options of the components, flannel, cloud and etcd.
  unfoldable pub set_components : Exec Assembly (Unit {0})
  set_components = do
    modify (configure_proxy h.lower_first)
    modify add_docker_options
    modify add_etcd_options
    add_kubelet_options h.kubelet c.kubelet_options c.kubelet_config
    component_options
    λ s. in_setup (setup_flannel h.conflist (h.temp s.config.rootfs)) s
    set_cloud
    λ s. on_disk (setup_etcd s.config.rootfs s.config.etcd_proxy) s

  -- The listen addresses are those that the slice holds now.
  abbrev pub name_servers : List Text → Exec Assembly (Unit {0})
  name_servers servers s =
      modify
        (λ x. record x {
          env =
              x.env ++ resolver_env servers (record c.settings { listen_addrs = elements s.addrs });
        })
        s

  -- The resolver with the variables that name its servers, and CoreDNS.
  unfoldable pub set_resolver : Exec Assembly (Unit {0})
  set_resolver s =
      (do
        servers ← add_resolv_file h.resolv_path s.config.rootfs
        name_servers servers
        set_core_dns h.resolv_path s.config.rootfs c.dns)
        s

  abbrev pub own_kube_configs : Exec Assembly (Unit {0})
  own_kube_configs s =
      (if s.config.selinux then pure tt else on_disk (set_kube_config_ownership s.config.rootfs)) s

  -- The configurations of kubectl, the secrets, the hosts and the name of the host.
  unfoldable pub set_files : Exec Assembly (Unit {0})
  set_files = do
    λ s.
        on_disk
          (add_kube_config h.parent h.temp h.host_config_first s.config.rootfs c.api_server_ip
            (host_state_dir s.mounts))
          s
    own_kube_configs
    mount_secrets c.secrets_dir
    set_hosts local_hosts
    set_hostname c.hostname

  -- The configuration of the container.
  unfoldable pub box_config : Assembly → BoxConfig
  box_config s = record {
    init_args = codes "/bin/systemd" ∷ [];
    init_env = codes "container=container-other" ∷ codes "LC_ALL=en_US.UTF-8" ∷ [];
    init_user = codes "root";
    env_files =
        (codes "/etc/container-environment", s.config.env)
        ∷ (codes "/etc/proxy-environment", s.config.proxy_env)
        ∷ [];
    files = s.files;
    rootfs = s.config.rootfs;
    mounts = s.mounts;
    devices = c.devices;
    capabilities = h.capabilities;
    data_dir = codes "/var/run/planet";
    process_label = codes "system_u:system_r:gravity_container_init_t:s0";
    se_linux = s.config.selinux;
  }

  -- Everything that stands before the start of the container.
  unfoldable pub assemble : Exec Assembly BoxConfig
  assemble = do
    check_host
    choose_backend
    add_service_user
    validate_mounts
    set_variables
    set_components
    set_resolver
    set_files
    λ s. (ok (box_config s), s)

  abbrev pub master_units : List Text
  master_units =
      codes "etcd"
      ∷ codes "flanneld"
      ∷ codes "docker"
      ∷ codes "kube-apiserver"
      ∷ codes "kube-controller-manager"
      ∷ codes "kube-scheduler"
      ∷ codes "kube-proxy"
      ∷ codes "kube-kubelet"
      ∷ []

  abbrev pub node_units : List Text
  node_units =
      codes "flanneld"
      ∷ codes "docker"
      ∷ codes "kube-proxy"
      ∷ codes "kube-kubelet"
      ∷ codes "etcd"
      ∷ []

  -- The units that are watched once the container runs.
  abbrev pub watched_units : List Text
  watched_units = if has_role c.settings.roles (codes "master") then master_units else node_units

  unfoldable pub boot : BoxConfig → Exec BoxHost (List Text)
  boot cfg = do lift h.listener; Boot.start h.box cfg; pure watched_units

  -- The result names the units to watch; the disk and the events are what lib/box leaves.
  unfoldable pub start : Assembly → Result (List Text) × BoxHost
  unfolding boot
  start s = let (r, t) = assemble s in continue r boot (record { disk = t.disk; events = [] })
