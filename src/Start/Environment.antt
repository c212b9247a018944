-- ===== src/Start/Environment.antt =====
-- `start` of tool/planet/start.go: the variables that it puts into the environment of the container by
-- itself, with the names of tool/planet/constants.go. What the configuration prints of its values
-- (`String`, `toKeyValueList`, `KubeDNSResolverIP`) is given as text.
pub mod Names
use planet.Env.{EnvVars, EnvPair}
use planet.Strings.Decimal.{itoa}
use planet.Strings.{join}
use planet.Trace.{ok, system, err, Result}
use planet.Base.{
  ℕ, Bool, true, false, not, ◌&&◌, ◌||◌, List, [], ◌∷◌, ◌++◌, map, if◌then◌else◌, Text, codes,
  text_eq,
}

-- The fields of `Config` that are read here.
pub record Settings : Type 0 where
  pub master_ip : Text
  pub cloud_provider : Text
  pub service_cidr : Text
  pub pod_cidr : Text
  pub service_node_port_range : Text
  pub proxy_port_range : Text
  pub public_ip : Text
  pub vxlan_port : ℕ
  pub etcd_member_name : Text
  pub initial_cluster : Text
  pub kube_dns_resolver_ip : Text
  pub etcd_proxy : Text
  pub etcd_initial_cluster : Text
  pub etcd_gateway_list : Text
  pub etcd_initial_cluster_state : Text
  pub roles : List Text
  pub cluster_id : Text
  pub node_name : Text
  pub election_enabled : Bool
  pub dns_hosts : Text
  pub dns_zones : Text
  pub allow_privileged : Bool
  pub listen_addrs : List Text
  pub dns_port : ℕ
  pub taints : List Text
  pub node_labels : List Text

abbrev pair : Text → Text → EnvPair
pair name val = record { name = name; val = val }

abbrev format_bool : Bool → Text
format_bool true = codes "true"
format_bool false = codes "false"

-- At least one of the roles must be one that the program knows.
unfoldable pub has_role : List Text → Text → Bool
unfolding text_eq
has_role [] role = false
has_role (r ∷ rs) role = text_eq r role || has_role rs role

unfoldable pub base_env : Text → Settings → EnvVars
unfolding itoa
base_env role c =
    pair (codes "KUBE_MASTER_IP") c.master_ip
    ∷ pair (codes "KUBE_CLOUD_PROVIDER") c.cloud_provider
    ∷ pair (codes "KUBE_SERVICE_SUBNET") c.service_cidr
    ∷ pair (codes "KUBE_POD_SUBNET") c.pod_cidr
    ∷ pair (codes "KUBE_SERVICE_NODE_PORT_RANGE") c.service_node_port_range
    ∷ pair (codes "KUBE_PROXY_PORT_RANGE") c.proxy_port_range
    ∷ pair (codes "PLANET_PUBLIC_IP") c.public_ip
    ∷ pair (codes "PLANET_VXLAN_PORT") (itoa c.vxlan_port)
    ∷ pair (codes "PLANET_AGENT_NAME") c.etcd_member_name
    ∷ pair (codes "PLANET_INITIAL_CLUSTER") c.initial_cluster
    ∷ pair (codes "KUBE_CLUSTER_DNS_IP") c.kube_dns_resolver_ip
    ∷ pair (codes "KUBE_APISERVER") (codes "leader.telekube.local")
    ∷ pair (codes "PLANET_ETCD_PROXY") c.etcd_proxy
    ∷ pair (codes "PLANET_ETCD_MEMBER_NAME") c.etcd_member_name
    ∷ pair (codes "ETCD_INITIAL_CLUSTER") c.etcd_initial_cluster
    ∷ pair (codes "PLANET_ETCD_GW_ENDPOINTS") c.etcd_gateway_list
    ∷ pair (codes "ETCD_INITIAL_CLUSTER_STATE") c.etcd_initial_cluster_state
    ∷ pair (codes "PLANET_ROLE") role
    ∷ pair (codes "KUBE_CLUSTER_ID") c.cluster_id
    ∷ pair (codes "KUBE_NODE_NAME") c.node_name
    ∷ pair (codes "PLANET_ELECTION_ENABLED") (format_bool c.election_enabled)
    ∷ pair (codes "PLANET_DNS_HOSTS") c.dns_hosts
    ∷ pair (codes "PLANET_DNS_ZONES") c.dns_zones
    ∷ pair (codes "PLANET_ALLOW_PRIVILEGED") (format_bool c.allow_privileged)
    ∷ []

-- The check of the roles, and the environment behind it. `config.Roles[0]` is there since one of the roles
-- is.
unfoldable pub with_base_env : EnvVars → Settings → Result EnvVars
unfolding has_role base_env
with_base_env env c =
    if not (has_role c.roles (codes "master")) && not (has_role c.roles (codes "node"))
    then err (system 0)
    else elim c.roles [ [] ↦ err (system 0) | role ∷ _ ↦ ok (env ++ base_env role c) ]

abbrev pub address_and_port : ℕ → Text → Text
address_and_port port address = address ++ b':' ∷ itoa port

abbrev unless_empty : Text → List Text → EnvVars
unless_empty name [] = []
unless_empty name (x ∷ xs) = pair name (join (codes ",") (x ∷ xs)) ∷ []

-- What is added once the resolver is set up.
unfoldable pub resolver_env : List Text → Settings → EnvVars
unfolding itoa join
resolver_env upstream c =
    pair (codes "PLANET_DNS_UPSTREAM_NAMESERVERS") (join (codes ",") upstream)
      ∷ pair (codes "PLANET_DNS_LOCAL_NAMESERVERS")
          (join (codes ",") (map (address_and_port c.dns_port) c.listen_addrs))
      ∷ unless_empty (codes "PLANET_NODE_TAINTS") c.taints
    ++ unless_empty (codes "PLANET_NODE_LABELS") c.node_labels
