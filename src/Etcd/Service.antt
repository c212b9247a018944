-- ===== src/Etcd/Service.antt =====
-- The etcd services of tool/planet/etcd.go: `etcdDisable`, the upgrade branch of `etcdEnable`, and
-- `restartEtcdClients`. What systemd answers on a status, the environment file, and whether etcd is
-- seen to stop are arguments.
pub mod Restarted
use planet.Trace.{attempt, ok, err, lift, pure, Exec, Result, ◌>>◌, ◌>>=◌}
use planet.Etcd.Gateway.{etcd_service}
use planet.Env.{EnvVars, get}
use planet.Systemd.{systemctl, Host}
use planet.Etcd.Upgrade.{proxy_on, proxy_name}
use planet.Base.{Bool, List, [], ◌∷◌, if◌then◌else◌, Text, codes, text_eq}

abbrev api_server_service : Text
api_server_service = codes "kube-apiserver.service"

abbrev pub upgrade_service : Text
upgrade_service = codes "etcd-upgrade.service"

abbrev pub clients : List Text
clients =
    api_server_service
    ∷ codes "planet-agent.service"
    ∷ codes "flanneld.service"
    ∷ codes "kube-proxy.service"
    ∷ codes "kube-kubelet.service"
    ∷ codes "coredns.service"
    ∷ []

-- `stopped` is `waitForEtcdStopped`.
unfoldable pub disable_service : Result (Unit {0}) → Text → Exec Host (Unit {0})
disable_service stopped service = do
  systemctl (codes "mask") service
  systemctl (codes "stop") service
  lift stopped

unfoldable pub enable_service : Text → Exec Host (Unit {0})
enable_service service = do systemctl (codes "unmask") service; systemctl (codes "start") service

abbrev which : Bool → Text
which upgrade = if upgrade then upgrade_service else etcd_service

abbrev stop_when : Bool → Text → Exec Host (Unit {0})
stop_when b service = if b then systemctl (codes "stop") service else pure tt

unfoldable pub disable_etcd : Result (Unit {0}) → Bool → Bool → Exec Host (Unit {0})
unfolding disable_service
disable_etcd stopped upgrade stop_api_server = do
  stop_when stop_api_server api_server_service
  disable_service stopped (which upgrade)

-- Without effect on a proxy.
unfoldable pub enable_upgrade : Result EnvVars → Exec Host (Unit {0})
enable_upgrade env = do
  vars ← lift env
  if text_eq (get vars proxy_name) proxy_on then pure tt else enable_service upgrade_service

-- The loop over the clients. It ends at the first status that cannot be had; the error of a restart is
-- passed over.
unfoldable pub restart_clients : (Text → Result Text) → List Text → Exec Host (Unit {0})
restart_clients status [] = pure tt
restart_clients status (s ∷ rest) = elim (status s) [
  | err _ ↦ pure tt
  | ok state ↦
      if text_eq state (codes "inactive")
      then restart_clients status rest
      else attempt (systemctl (codes "restart") s) >> restart_clients status rest
]
