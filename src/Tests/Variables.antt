-- ===== src/Tests/Variables.antt =====
-- A master whose command line sets the cloud provider again.
use planet.Start.Environment.{Settings, with_base_env, base_env}
use planet.Box.EnvFile.Fitting.{all_fit}
use planet.Env.{has, EnvVars}
use planet.Trace.{ok}
use planet.Base.{◌≡◌, refl, true, [], ◌∷◌, ◌++◌, Text, codes, text_eq}

abbrev pub settings : Settings
settings = record {
  master_ip = codes "10.1.0.1";
  cloud_provider = codes "aws";
  service_cidr = codes "10.100.0.0/16";
  pod_cidr = codes "10.244.0.0/16";
  service_node_port_range = codes "30000-32767";
  proxy_port_range = [];
  public_ip = codes "10.1.0.1";
  vxlan_port = 8472;
  etcd_member_name = codes "node1";
  initial_cluster = codes "node1:10.1.0.1";
  kube_dns_resolver_ip = codes "10.100.0.4";
  etcd_proxy = codes "off";
  etcd_initial_cluster = codes "node1=https://10.1.0.1:2380";
  etcd_gateway_list = codes "10.1.0.1:2379";
  etcd_initial_cluster_state = codes "new";
  roles = codes "master" ∷ [];
  cluster_id = codes "c1";
  node_name = codes "10.1.0.1";
  election_enabled = true;
  dns_hosts = [];
  dns_zones = [];
  allow_privileged = true;
  listen_addrs = codes "127.0.0.2" ∷ [];
  dns_port = 53;
  taints = [];
  node_labels = [];
}

abbrev provider : Text
provider = codes "KUBE_CLOUD_PROVIDER"

abbrev given : EnvVars
given = record { name = provider; val = codes "gce" } ∷ []

abbrev variables : EnvVars
variables = base_env (codes "master") settings

alone : with_base_env [] settings ≡ ok variables
unfolding with_base_env text_eq
alone = refl

behind_given : with_base_env given settings ≡ ok (given ++ variables)
unfolding with_base_env text_eq
behind_given = refl

variables_fit : all_fit (given ++ variables) ≡ true
unfolding all_fit base_env
variables_fit = refl

provider_there : has variables provider ≡ true
unfolding has base_env text_eq
provider_there = refl
