-- ===== src/Start/Options.antt =====
-- The command line options that tool/planet/start.go adds to the environment of the container.
pub mod Added
use planet.Env.{EnvVars, append}
use planet.Trace.{ok, err, Result}
use planet.Start.{Config}
use planet.Base.{List, [], ◌∷◌, ◌++◌, if◌then◌else◌, Text, codes, is_empty}

abbrev pub docker_name : Text
docker_name = codes "DOCKER_OPTS"

abbrev pub etcd_name : Text
etcd_name = codes "ETCD_OPTS"

abbrev pub api_server_name : Text
api_server_name = codes "KUBE_APISERVER_FLAGS"

abbrev pub kube_proxy_name : Text
kube_proxy_name = codes "KUBE_PROXY_FLAGS"

abbrev pub component_name : Text
component_name = codes "KUBE_COMPONENT_FLAGS"

abbrev pub append_all : Text → List Text → EnvVars → EnvVars
append_all k [] env = env
append_all k (v ∷ vs) env = append_all k vs (append env k v)

-- A setting that is empty is left out.
abbrev pub append_set : Text → Text → Text → EnvVars → EnvVars
append_set k setting v env = if is_empty setting then env else append env k v

-- The options that are always added.
unfoldable pub append_fixed : Text → EnvVars → EnvVars
unfolding append
append_fixed backend env =
    let e1 = append env docker_name (codes "--storage-driver=" ++ backend) in
    let e2 = append e1 docker_name (codes "--exec-opt native.cgroupdriver=cgroupfs") in
    let e3 = append e2 docker_name (codes "--log-opt max-size=50m") in
    append e3 docker_name (codes "--log-opt max-file=9")

unfoldable pub add_docker_options : Config → Config
unfolding append append_fixed
add_docker_options c =
    let env =
      append_set docker_name c.docker_options c.docker_options
        (append_fixed c.docker_backend c.env) in
    record c { env = if c.selinux then append env docker_name (codes "--selinux-enabled") else env }

unfoldable pub add_etcd_options : Config → Config
unfolding append
add_etcd_options c = record c { env = append_set etcd_name c.etcd_options c.etcd_options c.env }

-- `addComponentOptions` behind `addKubeletOptions`, whose effect is the argument.
unfoldable pub add_component_options : Result Config → Result Config
unfolding append
add_component_options (err e) = err e
add_component_options (ok c) =
    let e1 = append_set api_server_name c.api_server_options c.api_server_options c.env in
    let e2 =
      append_set api_server_name c.service_node_port_range
        (codes "--service-node-port-range=" ++ c.service_node_port_range) e1 in
    let e3 =
      append_set kube_proxy_name c.proxy_port_range
        (codes "--proxy-port-range=" ++ c.proxy_port_range) e2 in
    ok (record c {
      env =
          append_set component_name c.feature_gates (codes "--feature-gates=" ++ c.feature_gates)
            e3;
    })
