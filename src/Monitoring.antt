-- ===== src/Monitoring.antt =====
-- lib/monitoring: which checkers `AddCheckers` gives to the agent of a master and of a node, the pool of
-- certificates, and the probe of the versions. The checkers themselves, the clients and their libraries
-- are outside: a checker is the call that makes it, and what the fallible calls answer is an argument.
pub mod Registered
pub mod Certificates
use planet.Base.{
  ℕ, Bool, true, false, List, [], ◌∷◌, ◌++◌, ltb, ◌==◌, if◌then◌else◌, Text, codes, text_eq,
}
use planet.Start.Services.{lower}
use planet.Trace.{Result, ok, err, bad_parameter, Exec, pure, lift, ◌>>◌}

-- The role of the agent; another one gets no checker.
pub data Role : Type 0 where
  master node other : Role

-- The fields of `Config` that are read here.
pub record MonitoringConfig : Type 0 where
  pub role : Role
  pub local_nameservers : List Text
  pub registry_addr : Text
  pub nettest_container_image : Text
  pub disable_inter_pod_check : Bool
  pub cloud_provider : Text
  pub node_name : Text
  pub high_watermark : ℕ
  pub http_timeout : ℕ

abbrev pub default_http_timeout : ℕ
default_http_timeout = 10

-- `CheckAndSetDefaults`
unfoldable pub check_and_set_defaults : MonitoringConfig → Result MonitoringConfig
check_and_set_defaults c =
    if ltb 100 c.high_watermark
    then err bad_parameter
    else ok (record c {
      http_timeout = if c.http_timeout == 0 then default_http_timeout else c.http_timeout;
    })

-- The calls that make the checkers, with the arguments that the configuration gives.
pub data Checker : Type 0 where
  kube_api_server_health etcd_health systemd_health : Checker
  kubelet_health docker_health : Text → Checker
  docker_registry_health : Text → Checker
  ip_forward bridge_netfilter may_detach_mounts inotify versions : Checker
  node_status : Text → Checker
  inter_pod_communication : Text → Checker
  dns_checker : List Text → List Text → Checker
  storage : Text → ℕ → Checker
  docker_devicemapper : ℕ → Checker
  ping time_drift aws_has_profile : Checker

-- What the calls that may fail answer. `kube_client` is asked for the path of a configuration.
pub record Answers : Type 0 where
  pub etcd_config : Result (Unit {0})
  pub local_transport : Result (Unit {0})
  pub etcd_checker : Result (Unit {0})
  pub kube_client : Text → Result (Unit {0})
  pub ping_checker : Result (Unit {0})
  pub serf_client : Result (Unit {0})
  pub serf_member : Result (Unit {0})
  pub time_drift_checker : Result (Unit {0})

abbrev pub Registry : Type 0
Registry = List Checker

-- One statement of `addToMaster` or `addToNode`: a call that may fail, or a checker that is added, the
-- second one under a condition.
pub data Registration : Type 0 where
  call : Result (Unit {0}) → Registration
  add : Checker → Registration
  add_if : Bool → Checker → Registration

-- The statements in their order; an error ends them, and what was added stays.
unfoldable pub register : List Registration → Exec Registry (Unit {0})
register [] ks = (ok tt, ks)
register (call (err e) ∷ rest) ks = (err e, ks)
register (call (ok _) ∷ rest) ks = register rest ks
register (add k ∷ rest) ks = register rest (ks ++ k ∷ [])
register (add_if b k ∷ rest) ks = register rest (if b then ks ++ k ∷ [] else ks)

abbrev kubelet_config_path : Text
kubelet_config_path = codes "/etc/kubernetes/kubelet.kubeconfig"

abbrev kubectl_config_path : Text
kubectl_config_path = codes "/etc/kubernetes/kubectl.kubeconfig"

abbrev docker_socket : Text
docker_socket = codes "/var/run/docker.sock"

abbrev gravity_data_dir : Text
gravity_data_dir = codes "/var/lib/gravity"

abbrev pub leader_names : List Text
leader_names = codes "leader.telekube.local." ∷ []

abbrev pub has_nameservers : MonitoringConfig → Bool
has_nameservers c = elim c.local_nameservers [ [] ↦ false | _ ∷ _ ↦ true ]

abbrev pub on_aws : MonitoringConfig → Bool
on_aws c = text_eq (lower c.cloud_provider) (codes "aws")

abbrev pub pods_checked : MonitoringConfig → Bool
pods_checked c = if c.disable_inter_pod_check then false else true

abbrev pub add_to_master_steps : Answers → MonitoringConfig → List Registration
add_to_master_steps a c =
    call a.local_transport
    ∷ call a.etcd_checker
    ∷ call (a.kube_client kubelet_config_path)
    ∷ call (a.kube_client kubectl_config_path)
    ∷ add kube_api_server_health
    ∷ add (docker_health docker_socket)
    ∷ add (docker_registry_health (c.registry_addr ++ codes "/v2/"))
    ∷ add etcd_health
    ∷ add systemd_health
    ∷ add ip_forward
    ∷ add bridge_netfilter
    ∷ add may_detach_mounts
    ∷ add inotify
    ∷ add (node_status c.node_name)
    ∷ add_if (pods_checked c) (inter_pod_communication c.nettest_container_image)
    ∷ add versions
    ∷ add_if (has_nameservers c) (dns_checker leader_names c.local_nameservers)
    ∷ add (storage gravity_data_dir c.high_watermark)
    ∷ add (docker_devicemapper c.high_watermark)
    ∷ call a.ping_checker
    ∷ add ping
    ∷ call a.serf_client
    ∷ call a.serf_member
    ∷ call a.time_drift_checker
    ∷ add time_drift
    ∷ add_if (on_aws c) aws_has_profile
    ∷ []

unfoldable pub add_to_master : Answers → MonitoringConfig → Exec Registry (Unit {0})
unfolding register
add_to_master a c = register (add_to_master_steps a c)

abbrev pub add_to_node_steps : Answers → MonitoringConfig → List Registration
add_to_node_steps a c =
    call a.etcd_checker
    ∷ call (a.kube_client kubelet_config_path)
    ∷ add (kubelet_health (codes "http://127.0.0.1:10248"))
    ∷ add (docker_health docker_socket)
    ∷ add etcd_health
    ∷ add systemd_health
    ∷ add versions
    ∷ add ip_forward
    ∷ add bridge_netfilter
    ∷ add may_detach_mounts
    ∷ add inotify
    ∷ add_if (has_nameservers c) (dns_checker leader_names c.local_nameservers)
    ∷ add (node_status c.node_name)
    ∷ add (storage gravity_data_dir c.high_watermark)
    ∷ add (docker_devicemapper c.high_watermark)
    ∷ add_if (on_aws c) aws_has_profile
    ∷ []

unfoldable pub add_to_node : Answers → MonitoringConfig → Exec Registry (Unit {0})
unfolding register
add_to_node a c = register (add_to_node_steps a c)

abbrev pub add_for : Role → Answers → MonitoringConfig → Exec Registry (Unit {0})
add_for master = add_to_master
add_for node = add_to_node
add_for other = λ a c. pure tt

unfoldable pub add_checkers : Answers → MonitoringConfig → Exec Registry (Unit {0})
unfolding add_to_master add_to_node
add_checkers a c = lift a.etcd_config >> add_for c.role a c

-- `infoCheckers`: a component and the command that prints its version.
unfoldable pub info_checkers : List (Text × List Text)
info_checkers =
    (codes "system-version", codes "/bin/uname" ∷ codes "-a" ∷ [])
    ∷ (codes "systemd-version", codes "/bin/systemd" ∷ codes "--version" ∷ [])
    ∷ (codes "docker-version", codes "/usr/bin/docker" ∷ codes "info" ∷ [])
    ∷ (codes "etcd-version", codes "/usr/bin/etcd" ∷ codes "--version" ∷ [])
    ∷ (codes "kubelet-version", codes "/usr/bin/kubelet" ∷ codes "--version" ∷ [])
    ∷ (codes "coredns-version", codes "/usr/bin/coredns" ∷ codes "-version" ∷ [])
    ∷ (codes "dbus-version", codes "/usr/bin/dbus-daemon" ∷ codes "--version" ∷ [])
    ∷ (codes "serf-version", codes "/usr/bin/serf" ∷ codes "--version" ∷ [])
    ∷ (codes "flanneld-version", codes "/usr/bin/flanneld" ∷ codes "--version" ∷ [])
    ∷ (codes "registry-version", codes "/usr/bin/registry" ∷ codes "--version" ∷ [])
    ∷ (
      codes "node-problem-detector-version",
      codes "/usr/bin/node-problem-detector" ∷ codes "--version" ∷ [],
    )
    ∷ []

pub record VersionProbe : Type 0 where
  pub checker : Text
  pub detail : Text
  pub running : Bool

-- `Check` of the versions: `output` is what a command printed and whether it failed. The text of the
-- error is added to a variable that is not read again.
unfoldable pub report_versions :
    (List Text → Text × Result (Unit {0})) → List (Text × List Text) → List VersionProbe
report_versions output [] = []
report_versions output ((component, command) ∷ rest) =
    record { checker = component; detail = (output command).0; running = true }
    ∷ report_versions output rest
