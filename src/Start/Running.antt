-- ===== src/Start/Running.antt =====
-- `startAndWait` of tool/planet/start.go with `checkAndSetDefaults` of tool/planet/cfg.go: the container from
-- its configuration to its end. The wait for the process is an argument. A port is a natural number here,
-- so the test for a port that is not positive is one for zero.
pub mod Ending
use planet.Base.{ℕ, true, false, List, [], ◌==◌, if◌then◌else◌, Text}
use planet.Box.Boot.{BoxHost, World}
use planet.Box.Boot
use planet.Start.Files.{Assembly}
use planet.Start.Launch.{LaunchConfig, LaunchHost, start}
use planet.Trace.{Result, ok, err, Exec, attempt, lift, ◌>>=◌, ◌>>◌}
use planet.Users.{User}
use planet.Users.Container.{OsUser, lookup_id}

abbrev pub default_vxlan_port : ℕ
default_vxlan_port = 8472

abbrev vxlan_port_of : ℕ → ℕ
vxlan_port_of n = if n == 0 then default_vxlan_port else n

abbrev pub with_defaults : User → LaunchConfig → LaunchConfig
with_defaults u c = record c {
  service_user = u;
  settings = record c.settings { vxlan_port = vxlan_port_of c.settings.vxlan_port };
}

-- The service user by its id; a port that is not positive is the default one.
unfoldable pub check_and_set_defaults :
    (Text → Result OsUser) → Text → LaunchConfig → Result LaunchConfig
unfolding lookup_id
check_and_set_defaults lookup uid c = elim (lookup_id lookup uid) [
  | err e ↦ err e
  | ok u ↦ ok (with_defaults u c)
]

-- `Close` of the container at the end, whatever the wait says; its errors are lost. The udev listener, which
-- is closed too, has no state here.
unfoldable pub wait_and_close : Result (Unit {0}) → World → Exec BoxHost (Unit {0})
wait_and_close ended w = do attempt (Boot.close true false w); lift ended

abbrev pub then_wait :
    Result (Unit {0}) → World → Result (List Text) × BoxHost → Result (Unit {0}) × BoxHost
then_wait ended w (err e, t) = (err e, t)
then_wait ended w (ok units, t) = wait_and_close ended w t

abbrev pub from_checked :
    {K : Type 0}
    → LaunchHost K
    → Result (Unit {0})
    → Assembly
    → Result LaunchConfig
    → Result (Unit {0}) × BoxHost
from_checked h ended s (err e) = (err e, record { disk = s.disk; events = [] })
from_checked h ended s (ok c) = then_wait ended h.box (start h c s)

unfoldable pub start_and_wait :
    {K : Type 0}
    → LaunchHost K
    → (Text → Result OsUser)
    → Text
    → Result (Unit {0})
    → LaunchConfig
    → Assembly
    → Result (Unit {0}) × BoxHost
unfolding check_and_set_defaults wait_and_close
start_and_wait h lookup uid ended c s = from_checked h ended s (check_and_set_defaults lookup uid c)
