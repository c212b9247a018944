-- ===== src/Etcd/Enable.antt =====
-- `etcdEnable` and `etcdInitJoin` of tool/planet/etcd.go, on the host of the etcd services with the file of
-- the join on its disk. The attempts at joining are retried by Utils/Retry.
pub mod Guards
use planet.Trace.{pure, lift, Result, Exec, ◌>>=◌, ◌>>◌}
use planet.Env.{EnvVars, get}
use planet.Etcd.Service.{enable_service, clients, restart_clients, enable_upgrade}
use planet.Utils.Retry.{retry}
use planet.Etcd.Upgrade.{proxy_name}
use planet.Systemd.{Host}
use planet.Etcd.Gateway.{etcd_service}
use planet.Base.{
  ℕ, Bool, true, false, not, ◌&&◌, List, if◌then◌else◌, Text, codes, text_eq, is_empty,
}

abbrev pub cluster_state_name : Text
cluster_state_name = codes "ETCD_INITIAL_CLUSTER_STATE"

-- Whether this node has to be added to an existing cluster by itself.
unfoldable pub must_join : EnvVars → Text → Bool
unfolding get text_eq
must_join env init_master =
    not (text_eq (get env proxy_name) (codes "on"))
    && text_eq (get env cluster_state_name) (codes "existing")
    && not (is_empty init_master)

-- `attempt_join` is `etcdInitJoinImpl` with the environment that was read; `schedule` tells when the context
-- is done and `times` how often is tried at most.
unfoldable pub etcd_init_join :
    {S : Type 0}
    → ℕ
    → List Bool
    → (EnvVars → Exec S (Unit {0}))
    → Result EnvVars
    → Text
    → Exec S (Unit {0})
etcd_init_join times schedule attempt_join env init_master = do
  vars ← lift env
  if must_join vars init_master then retry times schedule (attempt_join vars) else pure tt

unfoldable pub etcd_enable :
    ℕ
    → List Bool
    → (EnvVars → Exec Host (Unit {0}))
    → (Text → Result Text)
    → Result EnvVars
    → Bool
    → Text
    → Exec Host (Unit {0})
unfolding etcd_init_join enable_upgrade
etcd_enable times schedule attempt_join status env true master = enable_upgrade env
etcd_enable times schedule attempt_join status env false master = do
  etcd_init_join times schedule attempt_join env master
  restart_clients status clients
  enable_service etcd_service
