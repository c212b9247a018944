-- ===== src/Etcd/Upgrade.antt =====
-- `etcdUpgrade` of tool/planet/etcd.go: the switch of the version file in an upgrade or a rollback,
-- and what is wiped. The environment file and systemd are outside: what `box.ReadEnvironment` and
-- `getServiceStatus` answer are arguments.
pub mod Effect
pub mod Rollback
pub mod Interrupted
use planet.Base.{Bool, not, ◌||◌, List, [], ◌∷◌, if◌then◌else◌, Text, codes, text_eq, is_empty}
use planet.Env.{EnvVars, get}
use planet.Trace.{
  bad_parameter, is_not_found, Result, ok, err, Exec, pure, lift, attempt, ◌>>=◌, ◌>>◌,
}
use planet.Os.{Disk, remove_all}
use planet.Etcd.Version.{
  Versions, assume_version, release_file, current_version_file, read_version, write_environment,
  base_dir, join_path, when,
}

abbrev pub proxy_name : Text
proxy_name = codes "PLANET_ETCD_PROXY"

abbrev pub proxy_on : Text
proxy_on = codes "on"

abbrev pub services : List Text
services = codes "etcd.service" ∷ codes "etcd-upgrade.service" ∷ []

abbrev is_down : Text → Bool
is_down status = text_eq status (codes "inactive") || text_eq status (codes "failed")

-- A service whose status cannot be queried is passed over.
unfoldable pub check_services : (Text → Result Text) → List Text → Result (Unit {0})
check_services status [] = ok tt
check_services status (s ∷ rest) =
    let others = check_services status rest in
    elim (status s) [
      | err _ ↦ others
      | ok state ↦ if is_down state then others else err bad_parameter
    ]

-- A version file that names no version stands for the assumed one.
abbrev pub current_or_assumed : Result Versions → Result Versions
current_or_assumed (ok vs) = ok vs
current_or_assumed (err e) =
    if is_not_found e then ok (record { current = assume_version; prev = [] }) else err e

abbrev pub member_dir : Text → Text
member_dir version = join_path (base_dir version) (codes "member")

-- The branch of a rollback.
unfoldable pub restore_backup : Versions → Exec Disk (Unit {0})
restore_backup vs =
    when (not (is_empty vs.prev)) (write_environment current_version_file vs.prev [])

-- The branch of an upgrade.
unfoldable pub move_to : Text → Versions → Exec Disk (Unit {0})
move_to desired vs = do
  when (not (text_eq vs.current desired)) do
    write_environment current_version_file desired vs.current
    when (not (is_empty vs.prev)) (remove_all (member_dir vs.prev))
  remove_all (member_dir desired)

-- From the desired version on; `rollback` chooses the branch.
unfoldable pub switch_version : Bool → Exec Disk (Unit {0})
unfolding move_to restore_backup
switch_version rollback = do
  desired ← read_version release_file
  found ← attempt (read_version current_version_file)
  vs ← lift (current_or_assumed found)
  if rollback then restore_backup vs else move_to desired.current vs

unfoldable pub upgrade : Result EnvVars → (Text → Result Text) → Bool → Exec Disk (Unit {0})
unfolding switch_version check_services
upgrade env status rollback = do
  vars ← lift env
  if text_eq (get vars proxy_name) proxy_on
      then pure tt
      else do lift (check_services status services); switch_version rollback
