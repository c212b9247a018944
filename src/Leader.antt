-- ===== src/Leader.antt =====
-- tool/planet/agent.go: leader election. What `startLeaderClient` sets up is a set of callbacks that
-- the election client calls when a key changes, each in a goroutine of its own; the order in which
-- they run is open. systemd and the client are outside: what `systemctl` and `AddVoter` answer are
-- arguments.
pub mod Callbacks
pub mod Election
pub mod Agent
use planet.Base.{
  ℕ, ◌+◌, ◌-◌, Bool, true, false, not, ◌||◌, List, [], ◌∷◌, ◌++◌, if◌then◌else◌, Text, codes,
  text_eq,
}
use planet.Trace.{Error, Result, ok, err, Exec, ◌>>◌}
use planet.Os.{Disk, create, write}

pub record LeaderConfig : Type 0 where
  pub public_ip : Text
  pub is_master : Bool
  pub election_enabled : Bool

-- The state that the callbacks share or change.
pub record Member : Type 0 where
  -- Whether the variable `cancelVoter` is set.
  pub cancel_voter : Bool
  -- The voters that are added and not cancelled.
  pub voters : ℕ
  -- The calls of `systemctl` so far, the last one last.
  pub commands : List (Text × Text)
  -- The elections in the local timeline, as the values before and after.
  pub events : List (Text × Text)
  -- What was sent to `errorC`.
  pub reported : List Error
  pub disk : Disk

abbrev pub elected_units : List Text
elected_units =
    codes "kube-controller-manager.service"
    ∷ codes "kube-scheduler.service"
    ∷ codes "kube-apiserver.service"
    ∷ []

-- `unitsCommand`: every unit is tried; the error of one that fails is kept and the loop goes on.
unfoldable pub units_command :
    (Text → Text → Result (Unit {0})) → Text → List Text → Member → List Error × Member
units_command systemctl command [] m = ([], m)
units_command systemctl command (unit ∷ rest) m =
    let (errors, m') =
      units_command systemctl command rest
        (record m { commands = m.commands ++ (command, unit) ∷ [] }) in
    elim (systemctl command unit) [ ok _ ↦ (errors, m') | err e ↦ (e ∷ errors, m') ]

-- `strconv.ParseBool`, where an error counts as `false`.
unfoldable pub parse_bool : Text → Bool
unfolding text_eq
parse_bool s =
    text_eq s (codes "1")
    || text_eq s (codes "t")
    || text_eq s (codes "T")
    || text_eq s (codes "true")
    || text_eq s (codes "TRUE")
    || text_eq s (codes "True")

-- The first callback on the leader key: the units of a master run on the leader only.
unfoldable pub on_leader_units :
    (Text → Text → Result (Unit {0})) → LeaderConfig → Text → Member → Member
unfolding units_command
on_leader_units systemctl conf new m =
    if text_eq new conf.public_ip
    then (units_command systemctl (codes "start") elected_units m).1
    else (units_command systemctl (codes "stop") elected_units m).1

-- The second one: an election of this node is recorded, a re-election is not.
unfoldable pub on_leader_event : LeaderConfig → Text → Text → Member → Member
on_leader_event conf prev new m =
    if not (text_eq new conf.public_ip)
    then m
    else if text_eq new prev
    then m
    else record m { events = m.events ++ (prev, new) ∷ [] }

abbrev pub coredns_hosts : Text
coredns_hosts = codes "/etc/coredns/coredns.hosts"

abbrev pub local_leader : Text → Text
local_leader ip =
    ip ++ codes " leader.telekube.local leader.gravity.local registry.local apiserver\n"

-- `ioutil.WriteFile` truncates the file and writes it.
unfoldable pub write_local_leader : Text → Text → Exec Disk (Unit {0})
unfolding create write
write_local_leader target ip = create target >> write target (local_leader ip)

-- The third one: the name of the API server leads to the new leader. An error is logged.
unfoldable pub on_leader_dns : Text → Member → Member
unfolding write_local_leader
on_leader_dns new m = record m { disk = (write_local_leader coredns_hosts new m.disk).1 }

-- The callback on the election key. `added` is what `AddVoter` answers, if it is called.
unfoldable pub on_election : Text → Result (Unit {0}) → Member → Member
on_election new added m =
    if parse_bool new
    then (if m.cancel_voter then m else elim added [
      | ok _ ↦ record m { cancel_voter = true; voters = m.voters + 1 }
      | err e ↦ record m { cancel_voter = true; reported = m.reported ++ e ∷ [] }
    ])
    else (if m.cancel_voter then record m { cancel_voter = false; voters = m.voters - 1 } else m)

-- The state when `startLeaderClient` has set up the first two callbacks: a master whose election is
-- enabled votes, one whose election is disabled stops its units.
unfoldable pub begin :
    (Text → Text → Result (Unit {0})) → LeaderConfig → Result (Unit {0}) → Exec Member (Unit {0})
unfolding units_command
begin systemctl conf added m =
    if conf.is_master
    then (if conf.election_enabled
        then (elim added [
          | ok _ ↦ (ok tt, record m { cancel_voter = true; voters = m.voters + 1 })
          | err e ↦ (err e, m)
        ])
        else (ok tt, (units_command systemctl (codes "stop") elected_units m).1))
    else (ok tt, m)
