-- ===== src/Tests/Start.antt =====
-- A master with a proxy, SELinux and the gateway of etcd.
use planet.Start.Services.{Setup}
use planet.Start.Monitor.{service_active, monitor_units}
use planet.Env.{has, get, EnvVars}
use planet.Start.Options.{docker_name, add_docker_options}
use planet.Start.{Config}
use planet.Strings.{has_text}
use planet.Env.Names.{IsUnique}
use planet.Os.{calm}
use planet.Start.Proxy.{proxy_names, configure_proxy}
use planet.Trace.{ok, ◌>>◌}
use planet.Box.EnvFile.{write_environment, read_environment}
use planet.Box.EnvFile.Fitting.{all_fit, all_fit-IsWritable}
use planet.Box.Enter.{inherit}
use planet.Start.Proxy.Inherited.{inherit-configure_proxy}
use planet.Base.{
  ℕ, zero, suc, ◌≡◌, refl, true, false, none, [], ◌∷◌, if◌then◌else◌, Text, codes, text_eq,
}

abbrev config : Config
config = record {
  rootfs = codes "/rootfs";
  env = record { name = codes "http_proxy"; val = codes "http://p:3128" } ∷ [];
  proxy_env = [];
  docker_backend = codes "overlay";
  docker_options = codes "--debug";
  selinux = true;
  etcd_options = [];
  etcd_proxy = codes "On";
  api_server_options = [];
  service_node_port_range = codes "30000-32767";
  proxy_port_range = [];
  feature_gates = [];
  disable_flannel = false;
  cloud_provider = codes "aws";
}

env-IsUnique : IsUnique config.env
unfolding has
env-IsUnique = (refl, tt)

is_moved : has_text (codes "http_proxy") proxy_names ≡ true
unfolding has_text text_eq
is_moved = refl

docker_options_text :
    get (add_docker_options config).env docker_name
    ≡ codes
        "--storage-driver=overlay --exec-opt native.cgroupdriver=cgroupfs --log-opt max-size=50m --log-opt max-file=9 --debug --selinux-enabled"
unfolding add_docker_options get text_eq
docker_options_text = refl

abbrev setup : Setup
setup = record { config = config; disk = calm λ q. none }

-- The second unit comes up at the second poll.
abbrev status : ℕ → Text → Text
status zero u = if text_eq u (codes "etcd") then codes "activating" else service_active
status (suc i) u = service_active

all_up : monitor_units status (codes "docker" ∷ codes "etcd" ∷ []) ≡ []
unfolding monitor_units text_eq
all_up = refl

moved_fit : all_fit (configure_proxy true config).proxy_env ≡ true
unfolding all_fit configure_proxy text_eq
moved_fit = refl

abbrev proxy_file : Text
proxy_file = codes "/rootfs/etc/proxy-environment"

nothing_own : get [] (codes "http_proxy") ≡ []
unfolding get
nothing_own = refl

inherit-configure_proxy_example :
    (seen : EnvVars) × (((write_environment
            (λ p. codes "/rootfs/etc")
            proxy_file
            (configure_proxy true config).proxy_env
          >> read_environment proxy_file)
        (calm (λ q. none))).0
      ≡ ok seen)
    × (get (inherit [] seen) (codes "http_proxy") ≡ get config.env (codes "http_proxy"))
inherit-configure_proxy_example =
    inherit-configure_proxy (λ p. codes "/rootfs/etc") proxy_file (λ q. none) true config []
      (codes "http_proxy") env-IsUnique tt
      (all_fit-IsWritable (configure_proxy true config).proxy_env moved_fit) is_moved nothing_own
