-- ===== src/Start.antt =====
-- tool/planet/start.go: how the configuration of the container becomes its environment and files.
pub mod Proxy
pub mod Options
pub mod Services
pub mod Monitor
pub mod Resolv
pub mod Cloud
pub mod Required
pub mod Environment
pub mod CoreDns
pub mod KubeConfig
pub mod Files
pub mod Launch
pub mod Running
use planet.Env.{EnvVars}
use planet.Base.{Bool, Text}

-- The fields of `Config` that the modelled functions read or change.
pub record Config : Type 0 where
  pub rootfs : Text
  pub env : EnvVars
  pub proxy_env : EnvVars
  pub docker_backend : Text
  pub docker_options : Text
  pub selinux : Bool
  pub etcd_options : Text
  pub etcd_proxy : Text
  pub api_server_options : Text
  pub service_node_port_range : Text
  pub proxy_port_range : Text
  pub feature_gates : Text
  pub disable_flannel : Bool
  pub cloud_provider : Text
