-- ===== src/Etcd/Restore.antt =====
-- `etcdRestore` and `etcdWipe` of tool/planet/etcd.go, and the waits that they use. The backup library,
-- the clients and the answer of the user are arguments.
pub mod Waiting
pub mod Order
pub mod Wiped
use planet.Trace.{
  pure, bad_parameter, is_not_found, ok, lift, system, attempt, err, Result, Exec, ◌>>=◌, ◌>>◌,
}
use planet.Strings.{has_text, trim_space}
use planet.Etcd.Version.{base_dir, current_version_file, assume_version, read_version, Versions}
use planet.Env.{EnvVars}
use planet.Os.{remove_all, Disk}
use planet.Systemd.{on_disk, Host}
use planet.Etcd.Service.{enable_upgrade, disable_etcd}
use planet.Base.{Bool, true, false, List, [], ◌∷◌, if◌then◌else◌, Text, codes, text_eq}

-- `waitForEtcdStopped`: at each tick the names of the running processes, or an error. The ticks end
-- where the context is done.
unfoldable pub wait_stopped : List (Result (List Text)) → Result (Unit {0})
unfolding has_text
wait_stopped [] = err (system 2)
wait_stopped (err e ∷ _) = err e
wait_stopped (ok running ∷ ticks) =
    let rest = wait_stopped ticks in if has_text (codes "etcd") running then rest else ok tt

-- `waitEtcdHealthy`: at each tick whether a leader is known.
unfoldable pub wait_healthy : List Bool → Result (Unit {0})
wait_healthy [] = err (system 2)
wait_healthy (leader ∷ ticks) = let rest = wait_healthy ticks in if leader then ok tt else rest

abbrev pub version_or_assumed : Result Versions → Result Text
version_or_assumed (ok vs) = ok vs.current
version_or_assumed (err e) = if is_not_found e then ok assume_version else err e

-- `getEtcdDataDir`
unfoldable pub data_dir : Exec Disk Text
data_dir = do
  found ← attempt (read_version current_version_file)
  version ← lift (version_or_assumed found)
  pure (base_dir version)

-- `getConfirmation` with what the user types.
unfoldable pub confirmation : Result Text → Result (Unit {0})
unfolding trim_space text_eq
confirmation (err e) = err e
confirmation (ok response) =
    if text_eq (trim_space response) (codes "yes") then ok tt else err bad_parameter

unfoldable pub wipe : Bool → Result Text → Exec Disk (Unit {0})
wipe confirmed response = do
  dir ← data_dir
  lift (if confirmed then ok tt else confirmation response)
  remove_all dir

-- What the world answers on the way of a restore: the processes seen in the three waits for etcd to
-- stop, its health in two, the client, the environment file and the backup library.
pub record Answers : Type 0 where
  pub env : Result EnvVars
  pub client : Result (Unit {0})
  pub stopping : List (Result (List Text))
  pub stopping_again : List (Result (List Text))
  pub stopping_last : List (Result (List Text))
  pub initialized : List Bool
  pub started : List Bool
  pub offline : Text → Exec Disk (Unit {0})
  pub online : Result (Unit {0})

abbrev pub disable_upgrade : List (Result (List Text)) → Exec Host (Unit {0})
disable_upgrade ticks = disable_etcd (wait_stopped ticks) true false

-- From the data directory on.
unfoldable pub restore_to : Answers → Text → Exec Host (Unit {0})
restore_to a dir = do
  disable_upgrade a.stopping
  on_disk (remove_all dir)
  enable_upgrade a.env
  lift a.client
  lift (wait_healthy a.initialized)
  disable_upgrade a.stopping_again
  on_disk (a.offline dir)
  enable_upgrade a.env
  lift (wait_healthy a.started)
  lift a.online
  disable_upgrade a.stopping_last

abbrev on_disk_text : Exec Disk Text → Exec Host Text
on_disk_text m h = let (r, d) = m h.disk in (r, record h { disk = d })

unfoldable pub restore : Answers → Exec Host (Unit {0})
restore a = do dir ← on_disk_text data_dir; restore_to a dir
