-- ===== src/Tests/Launch.antt =====
-- A master that is started on a host where nothing fails, and the files that name its servers.
use planet.Start.Running.{start_and_wait}
use planet.Start.Running.Ending.{Over, start_and_wait-Over}
use planet.Start.Launch.{
  LaunchHost, LaunchConfig, start, assemble, boot, check_host, choose_backend, add_service_user,
  validate_mounts, set_variables, set_components, set_resolver, set_files, set_cloud, box_config,
  master_units, node_units, with_files,
}
use planet.Start.Launch.Guards.{start_guards, is_accepted}
use planet.Start.Launch.Mounted.{assemble-mounts}
use planet.Start.Files.{
  Assembly, KubeletLibrary, resolv_mount, secrets_mount, add_kubelet_options, set_options,
  kubelet_config, add_resolv_file, read_host_resolv, write_text, set_core_dns, set_hosts,
  set_hostname, mount_secrets,
}
use planet.Start.Required.{
  etcd_work_dir, docker_work_dir, registry_work_dir, check_required_mounts, scan_mounts, claim_etcd,
  chown_dir, chown_all,
}
use planet.Start.Required.Present.{is_mounted}
use planet.Start.Environment.{has_role, with_base_env, resolver_env}
use planet.Start.KubeConfig.{
  add_kube_config, write_kube_config, set_kube_config_ownership, change_owners,
}
use planet.Start.Services.{setup_flannel, setup_etcd, remove_dropin}
use planet.Start.Cloud.{add_cloud_options, pick_docker_storage_backend, first_supported}
use planet.Start.Options.{add_docker_options, add_etcd_options, add_component_options}
use planet.Start.Proxy.{configure_proxy}
use planet.Start.{Config}
use planet.Box.Boot.{World}
use planet.Box.Boot
use planet.Box.EnvFile.{write_pairs}
use planet.Box.Container.{BoxConfig, cgroup_ns_enabled}
use planet.Box.Mounts.{Mounts, Mount}
use planet.Users.{User}
use planet.Users.Container.{
  OsUser, add_user_to_container, add_group_to_container, rewrite_database, write_lines_to, read_all,
}
use planet.Os.{
  Node, file, directory, calm, open_file, read, truncate, mkdir_all, create, write, change_mode,
  rename, remove,
}
use planet.Utils.SafeFile.{safe_write, replace_file}
use planet.Tests.Variables.{settings}
use planet.Trace.{system, Result, ok, err, not_found}
use planet.Base.{
  ◌≡◌, refl, Bool, true, false, ◌||◌, Option, some, List, [], ◌∷◌, ◌++◌, if◌then◌else◌, Text, codes,
  text_eq,
}

abbrev mount_to : Text → Text → Mount
mount_to src dst = record {
  src = src;
  dst = dst;
  readonly = false;
  skip_if_missing = false;
  recursive = false;
}

abbrev mounts : Mounts
mounts =
    mount_to (codes "/mnt/etcd") etcd_work_dir
    ∷ mount_to (codes "/mnt/docker") docker_work_dir
    ∷ mount_to (codes "/mnt/registry") registry_work_dir
    ∷ []

abbrev service_account : User
service_account = record {
  name = codes "planet";
  pass = codes "x";
  uid = 1000;
  gid = 1000;
  gecos = [];
  home = codes "/home";
  shell = [];
}

abbrev world : World
world = record {
  parent = λ p. codes "/r/etc";
  join_path = λ a b. a ++ b;
  absolute = λ p. ok p;
  is_executable = λ p. true;
  glob = λ p. ok (p ∷ []);
  stat = λ p. err not_found;
  auto_created = [];
  host = record { hostname = ok (codes "node-1"); udev = ok []; loops = ok [] };
  container_id = codes "7";
  use_systemd = true;
  factory = ok tt;
  create = ok tt;
  run = ok tt;
  status = ok tt;
  destroy = ok tt;
  close = ok tt;
}

abbrev library : KubeletLibrary Text
library = record {
  decode = λ t. ok t;
  yaml_to_json = λ t. ok t;
  unmarshal = λ t. ok t;
  merge = λ a b. ok (a ++ b);
  clear_read_only_port = λ k. k;
  marshal = λ k. ok k;
  default_config = codes "kind: KubeletConfiguration";
  overrides = [];
}

abbrev host : LaunchHost Text
host = record {
  is_root = true;
  kernel = ok 415;
  mounted_cgroups = ok tt;
  supports = λ fs. ok true;
  parse_users = λ t. ok [];
  parse_groups = λ t. ok [];
  service_group = ok (record { name = codes "planet"; pass = codes "x"; gid = 1000; members = [] });
  clean = λ p. p;
  under = λ p. [];
  is_btrfs = λ p. false;
  lower_first = false;
  host_config_first = true;
  decode = λ t. ok t;
  aws = ok [];
  gce = ok [];
  kubelet = library;
  conflist = [];
  parent = λ p. codes "/r/etc/kubernetes";
  temp = λ p. p ++ codes "~";
  resolv_path = err not_found;
  capabilities = [];
  listener = ok tt;
  box = world;
}

abbrev config : LaunchConfig
config = record {
  settings = settings;
  cloud = record { provider = []; config = []; cluster_id = codes "c1" };
  dns = record { hosts = []; zones = []; port = 53 };
  devices = [];
  ignore_checks = false;
  secrets_dir = codes "/secrets";
  hostname = codes "node-1";
  kubelet_options = [];
  kubelet_config = [];
  service_user = service_account;
  api_server_ip = codes "10.100.0.1";
}

abbrev start_config : Config
start_config = record {
  rootfs = codes "/r";
  env = [];
  proxy_env = [];
  docker_backend = [];
  docker_options = [];
  selinux = false;
  etcd_options = [];
  etcd_proxy = codes "off";
  api_server_options = [];
  service_node_port_range = [];
  proxy_port_range = [];
  feature_gates = [];
  disable_flannel = true;
  cloud_provider = [];
}

abbrev nodes : Text → Option Node
nodes p =
    if text_eq p (codes "/r/etc/passwd") || text_eq p (codes "/r/etc/group")
    then some (file [])
    else some directory

abbrev state : Assembly
state = record {
  config = start_config;
  disk = calm nodes;
  mounts = mounts;
  files = [];
  addrs = record { array = codes "127.0.0.2" ∷ []; len = 1 };
}

is_ok : {A : Type 0} → Result A → Bool
is_ok (ok a) = true
is_ok (err e) = false

abbrev result_or : {A : Type 0} → A → Result A → A
result_or d (ok a) = a
result_or d (err e) = d

ok_result : {A : Type 0} → (d : A) (r : Result A) → is_ok r ≡ true → r ≡ ok (result_or d r)
unfolding is_ok
ok_result d (ok a) h = refl
ok_result d (err e) h = absurd (cc h)

abbrev assembled : BoxConfig
assembled = result_or (box_config host config state) (assemble host config state).0

assembles : is_ok (assemble host config state).0 ≡ true
unfolding assemble check_host choose_backend add_service_user validate_mounts set_variables
    set_components set_resolver set_files set_cloud add_user_to_container add_group_to_container
    rewrite_database write_lines_to open_file read truncate check_required_mounts scan_mounts
    claim_etcd chown_dir chown_all with_base_env has_role add_kubelet_options set_options
    kubelet_config add_component_options setup_flannel remove change_mode add_cloud_options
    with_files setup_etcd remove_dropin add_resolv_file read_host_resolv write_text create write
    set_core_dns add_kube_config write_kube_config mkdir_all safe_write replace_file rename
    set_kube_config_ownership change_owners mount_secrets set_hosts set_hostname text_eq read_all
    is_ok pick_docker_storage_backend first_supported add_etcd_options add_docker_options
    configure_proxy
assembles = refl

assemble-mounts_example :
    (assembled.mounts
      ≡ mounts ++ (resolv_mount (codes "/r") ∷ secrets_mount (codes "/secrets") ∷ []))
    × (assembled.rootfs ≡ codes "/r")
assemble-mounts_example =
    assemble-mounts host config state assembled
      (ok_result (box_config host config state) (assemble host config state).0 assembles)

abbrev watched : List Text
watched = result_or [] (start host config state).0

starts : is_ok (start host config state).0 ≡ true
unfolding start boot Boot.start Boot.check_and_set_defaults Boot.prepare Boot.create_and_run
    Boot.run_container Boot.write_env_files Boot.write_files assemble check_host choose_backend
    add_service_user validate_mounts set_variables set_components set_resolver set_files set_cloud
    add_user_to_container add_group_to_container rewrite_database write_lines_to open_file read
    truncate check_required_mounts scan_mounts claim_etcd chown_dir chown_all with_base_env has_role
    add_kubelet_options set_options kubelet_config add_component_options setup_flannel remove
    change_mode add_cloud_options with_files setup_etcd remove_dropin add_resolv_file
    read_host_resolv write_text create write set_core_dns add_kube_config write_kube_config
    mkdir_all safe_write replace_file rename set_kube_config_ownership change_owners mount_secrets
    set_hosts set_hostname text_eq read_all is_ok pick_docker_storage_backend first_supported
    add_etcd_options add_docker_options configure_proxy box_config write_pairs resolver_env
    Boot.get_lib_container_factory cgroup_ns_enabled
starts = refl

start_guards_example :
    (true ≡ true)
    × (is_accepted host.kernel false ≡ true)
    × (host.mounted_cgroups ≡ ok tt)
    × (is_mounted host.clean etcd_work_dir mounts ≡ true)
    × (is_mounted host.clean docker_work_dir mounts ≡ true)
    × (is_mounted host.clean registry_work_dir mounts ≡ true)
    × (has_role settings.roles (codes "master") || has_role settings.roles (codes "node") ≡ true)
    × (watched ≡ (
        if has_role settings.roles (codes "master")
        then master_units host config
        else node_units host config))
start_guards_example =
    start_guards host config state watched (ok_result [] (start host config state).0 starts)

abbrev lookup : Text → Result OsUser
lookup uid =
    ok (record { uid = uid; gid = uid; username = codes "planet"; name = []; home_dir = codes "/" })

-- The process of the container is killed.
start_and_wait-Over_example :
    Over (start_and_wait host lookup (codes "1000") (err (system 9)) config state).1.events
start_and_wait-Over_example =
    start_and_wait-Over host lookup (codes "1000") (err (system 9)) config state
