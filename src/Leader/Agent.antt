-- ===== src/Leader/Agent.antt =====
-- `runAgent` of tool/planet/agent.go with the setup of `startLeaderClient`, and the commands that pause,
-- resume and show the leader. The agent, the etcd and election clients, systemd and the signals are
-- outside: what their calls answer is an argument. Go's deferred calls run when the body has ended.
pub mod Closing
pub mod Commands
use planet.Base.{
  Bool, true, false, not, ◌&&◌, Option, none, some, List, [], ◌∷◌, ◌++◌, if◌then◌else◌, Text, codes,
  text_eq, is_empty,
}
use planet.Leader.{LeaderConfig, Member, begin}
use planet.Monitoring.{MonitoringConfig, check_and_set_defaults, add_checkers, Answers}
use planet.Trace.{
  Result, ok, err, already_exists, not_found, Exec, pure, raise, lift, attempt, ◌>>◌, ◌>>=◌,
}

pub data Event : Type 0 where
  agent_created agent_started agent_closed client_created client_closed resolver_set : Event
  -- The etcd client for the watch of the masters; no call of the program closes it.
  watch_client_created watching cleaning : Event
  joined : List Text → Event

-- The keys of etcd, what has been created and closed, and the member of the election.
pub record AgentState : Type 0 where
  pub store : Text → Option Text
  pub events : List Event
  pub member : Member

pub record Calls : Type 0 where
  pub hostname : Result (Unit {0})
  pub upsert_cgroups : Bool → Result (Unit {0})
  pub etcd_checked : Result (Unit {0})
  pub etcd_client : Result (Unit {0})
  -- Whether the write that sets the initial mode reaches the store.
  pub set_mode : Result (Unit {0})
  pub leader_client : Result (Unit {0})
  pub systemctl : Text → Text → Result (Unit {0})
  pub added_voter : Result (Unit {0})
  pub new_agent : Result (Unit {0})
  pub metrics : Result (Unit {0})
  pub checkers : Answers
  pub started : Result (Unit {0})
  pub is_member : Bool
  pub join : Result (Unit {0})
  pub resolver : Result (Unit {0})
  -- Whether etcd gives a client for the watch of the masters.
  pub watch_client : Result (Unit {0})
  -- A signal, or an error that a callback has sent.
  pub ended : Result (Unit {0})

abbrev pub emit : Event → Exec AgentState (Unit {0})
emit e s = (ok tt, record s { events = s.events ++ e ∷ [] })

-- `strconv.FormatBool`
abbrev pub format_bool : Bool → Text
format_bool true = codes "true"
format_bool false = codes "false"

abbrev pub put : (Text → Option Text) → Text → Text → Text → Option Text
put store k v j = if text_eq k j then some v else store j

-- A write of a key that must not exist yet.
abbrev create_key : Text → Text → Exec AgentState (Unit {0})
create_key k v s = elim (s.store k) [
  | some _ ↦ (err already_exists, s)
  | none ↦ (ok tt, record s { store = put s.store k v })
]

abbrev is_there : Result (Unit {0}) → Result (Unit {0})
is_there (ok _) = ok tt
is_there (err already_exists) = ok tt
is_there (err e) = err e

-- A mode that is set already stays.
unfoldable pub set_initial_mode : Calls → Text → Bool → Exec AgentState (Unit {0})
set_initial_mode w key enabled = do
  r ← attempt (lift w.set_mode >> create_key key (format_bool enabled))
  lift (is_there r)

abbrev pub in_member : Exec Member (Unit {0}) → Exec AgentState (Unit {0})
in_member m s = let (r, t) = m s.member in (r, record s { member = t })

-- The client is closed behind an error.
unfoldable pub set_up_callbacks : Calls → LeaderConfig → Exec AgentState (Unit {0})
set_up_callbacks w conf = do
  emit client_created
  r ← attempt (in_member (begin w.systemctl conf w.added_voter))
  elim r [ ok _ ↦ pure tt | err e ↦ emit client_closed >> raise e ]

unfoldable pub start_leader_client : Calls → LeaderConfig → Text → Exec AgentState (Unit {0})
start_leader_client w conf key = do
  lift w.hostname
  lift (w.upsert_cgroups conf.is_master)
  lift w.etcd_checked
  lift w.etcd_client
  if conf.is_master then set_initial_mode w key conf.election_enabled else pure tt
  lift w.leader_client
  set_up_callbacks w conf

-- A body whose deferred call leaves an event.
abbrev pub deferred : Event → Exec AgentState (Unit {0}) → Exec AgentState (Unit {0})
deferred e m = do r ← attempt m; emit e; lift r

-- `startWatchingEtcdMasters`
unfoldable pub watch_masters : Calls → Exec AgentState (Unit {0})
watch_masters w = do lift w.watch_client; emit watch_client_created; emit watching

-- Once the client of the election is there.
unfoldable pub serve : Calls → LeaderConfig → Exec AgentState (Unit {0})
unfolding watch_masters
serve w conf = do
  lift w.resolver
  emit resolver_set
  if conf.is_master then pure tt else watch_masters w
  emit cleaning
  lift w.ended

-- A node that is no member joins the peers that it was given.
unfoldable pub join_cluster : Calls → List Text → Exec AgentState (Unit {0})
join_cluster w peers =
    if not w.is_member && not (is_empty peers) then lift w.join >> emit (joined peers) else pure tt

-- Once the agent is there.
unfoldable pub run_created :
    Calls → MonitoringConfig → LeaderConfig → Text → List Text → Exec AgentState (Unit {0})
run_created w mon conf key peers = do
  lift w.metrics
  lift (add_checkers w.checkers mon []).0
  lift w.started
  emit agent_started
  join_cluster w peers
  start_leader_client w conf key
  deferred client_closed (serve w conf)

unfoldable pub run_agent :
    Calls → MonitoringConfig → LeaderConfig → Text → List Text → Exec AgentState (Unit {0})
run_agent w mon conf key peers = do
  checked ← lift (check_and_set_defaults mon)
  lift w.new_agent
  emit agent_created
  deferred agent_closed (run_created w checked conf key peers)

-- `getEtcdClient`, and `enableElection` with the error of the write.
unfoldable pub enable_election :
    Result (Unit {0}) → Result (Unit {0}) → Text → Bool → Exec AgentState (Unit {0})
enable_election client written key enabled = do
  lift client
  lift written
  λ s. (ok tt, record s { store = put s.store key (format_bool enabled) })

unfoldable pub leader_pause :
    Result (Unit {0}) → Result (Unit {0}) → Text → Exec AgentState (Unit {0})
unfolding enable_election
leader_pause client written key = enable_election client written key false

unfoldable pub leader_resume :
    Result (Unit {0}) → Result (Unit {0}) → Text → Exec AgentState (Unit {0})
unfolding enable_election
leader_resume client written key = enable_election client written key true

-- What is printed: the value of the leader key.
unfoldable pub leader_view : Result (Unit {0}) → Text → Exec AgentState Text
leader_view client key = do
  lift client
  λ s. (elim (s.store key) [ some v ↦ ok v | none ↦ err not_found ], s)
