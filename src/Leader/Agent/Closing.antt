-- ===== src/Leader/Agent/Closing.antt =====
-- What the agent has created is closed.
use planet.Base.{◌≡◌, refl, ◌⊎◌, inl, Bool, false, List, [], ◌∷◌, ◌++◌, arith, Text}
use planet.Leader.{LeaderConfig}
use planet.Leader.Agent.{
  watch_masters, emit, deferred, Event, agent_created, agent_started, agent_closed, client_created,
  client_closed, resolver_set, watch_client_created, watching, cleaning, joined, AgentState, Calls,
  set_initial_mode, set_up_callbacks, start_leader_client, serve, join_cluster, run_created,
  run_agent,
}
use planet.Monitoring.{MonitoringConfig, check_and_set_defaults}
use planet.Trace.{Result, ok, err, Exec, lift, continue, ◌>>◌}

-- What is open. Nothing else happens while the agent is not open, and the client of the election is never
-- open without it. The etcd client of the watch is made while both are open and stays open:
-- `watched` is all three, `agent_watched` the agent and that client, `watch_left` that client alone.
pub data Phase : Type 0 where
  idle with_agent with_client watched agent_watched watch_left broken : Phase

pub after : Phase → Event → Phase
after idle agent_created = with_agent
after idle _ = broken
after with_agent agent_started = with_agent
after with_agent (joined peers) = with_agent
after with_agent client_created = with_client
after with_agent agent_closed = idle
after with_agent _ = broken
after with_client client_closed = with_agent
after with_client resolver_set = with_client
after with_client cleaning = with_client
after with_client watch_client_created = watched
after with_client _ = broken
after watched watching = watched
after watched cleaning = watched
after watched client_closed = agent_watched
after watched _ = broken
after agent_watched agent_closed = watch_left
after agent_watched _ = broken
after watch_left _ = broken
after broken _ = broken

unfoldable pub after_all : Phase → List Event → Phase
unfolding after
after_all p [] = p
after_all p (e ∷ es) = after_all (after p e) es

after_all-append :
    (p : Phase) (a b : List Event) → after_all p (a ++ b) ≡ after_all (after_all p a) b
unfolding after_all
after_all-append p [] b = refl
after_all-append p (e ∷ a) b = after_all-append (after p e) a b

after_all-one :
    (p : Phase) (a : List Event) (e : Event) → after_all p (a ++ e ∷ []) ≡ after (after_all p a) e
unfolding after_all
after_all-one p a e = after_all-append p a (e ∷ [])

-- The phase of a state.
abbrev phase : AgentState → Phase
phase s = after_all idle s.events

module _ (w : Calls) (conf : LeaderConfig) (s : AgentState) where
  set_initial_mode-phase : (key : Text) (b : Bool) → phase (set_initial_mode w key b s).1 ≡ phase s
  unfolding set_initial_mode
  set_initial_mode-phase key b = ground arith

  set_up_callbacks-phase :
      phase s ≡ with_agent
      → phase (set_up_callbacks w conf s).1
        ≡ elim (set_up_callbacks w conf s).0 [ ok _ ↦ with_client | err _ ↦ with_agent ]
  unfolding set_up_callbacks after
  set_up_callbacks-phase h =
      let one = s.events ++ client_created ∷ [] in
      ground
        (arith, h, after_all-one idle s.events client_created, after_all-one idle one client_closed)

  serve-phase :
      phase s ≡ with_client
      → (phase (serve w conf s).1 ≡ with_client)
        ⊎ ((phase (serve w conf s).1 ≡ watched) × (conf.is_master ≡ false))
  unfolding serve watch_masters after
  serve-phase h =
      let one = s.events ++ resolver_set ∷ [] in
      let two = one ++ watch_client_created ∷ [] in
      let three = two ++ watching ∷ [] in
      ground (
        arith,
        h,
        after_all-one idle s.events resolver_set,
        after_all-one idle one watch_client_created,
        after_all-one idle one cleaning,
        after_all-one idle two watching,
        after_all-one idle three cleaning,
      )

  join_cluster-phase :
      (peers : List Text) → phase s ≡ with_agent → phase (join_cluster w peers s).1 ≡ with_agent
  unfolding join_cluster after
  join_cluster-phase peers h = ground (arith, h, after_all-one idle s.events (joined peers))

module _ (w : Calls) (conf : LeaderConfig) (s : AgentState) where
  start_leader_client-phase :
      (key : Text)
      → phase s ≡ with_agent
      → phase (start_leader_client w conf key s).1
        ≡ elim (start_leader_client w conf key s).0 [ ok _ ↦ with_client | err _ ↦ with_agent ]
  unfolding start_leader_client
  start_leader_client-phase key h =
      let mode = (set_initial_mode w key conf.election_enabled s).1 in
      ground (
        arith,
        h,
        set_initial_mode-phase w conf s key conf.election_enabled,
        set_up_callbacks-phase w conf s,
        set_up_callbacks-phase w conf mode,
      )

module _ (w : Calls) (mon : MonitoringConfig) (conf : LeaderConfig) (key : Text) (peers : List Text)
    (s : AgentState) where
  abbrev started : AgentState
  started = record s { events = s.events ++ agent_started ∷ [] }

  abbrev in_cluster : AgentState
  in_cluster = (join_cluster w peers started).1

  abbrev led : AgentState
  led = (start_leader_client w conf key in_cluster).1

  abbrev served : AgentState
  served = (serve w conf led).1

  run_created-phase :
      phase s ≡ with_agent
      → (phase (run_created w mon conf key peers s).1 ≡ with_agent)
        ⊎ ((phase (run_created w mon conf key peers s).1 ≡ agent_watched)
            × (conf.is_master ≡ false))
  unfolding run_created after
  run_created-phase h =
      let one = after_all-one idle s.events agent_started in
      let joins = join_cluster-phase w conf started peers in
      let leads = start_leader_client-phase w conf in_cluster key in
      let serves = serve-phase w conf led in
      let closes = after_all-one idle served.events client_closed in
      ground (arith, h, one, joins, leads, serves, closes)

-- The agent with its defaults.
module _ (w : Calls) (conf : LeaderConfig) (key : Text) (peers : List Text) (s : AgentState)
    (h : phase s ≡ idle) where
  abbrev new_state : AgentState
  new_state = record s { events = s.events ++ agent_created ∷ [] }

  abbrev with_new : MonitoringConfig → Exec AgentState (Unit {0})
  with_new mon = do
    lift w.new_agent
    emit agent_created
    deferred agent_closed (run_created w mon conf key peers)

  with_new-phase :
      (mon : MonitoringConfig)
      → (phase (with_new mon s).1 ≡ idle)
        ⊎ ((phase (with_new mon s).1 ≡ watch_left) × (conf.is_master ≡ false))
  unfolding after
  with_new-phase mon =
      let there = after_all-one idle s.events agent_created in
      let runs = run_created-phase w mon conf key peers new_state in
      let closes =
        after_all-one idle (run_created w mon conf key peers new_state).1.events agent_closed in
      ground (arith, h, there, runs, closes)

-- However the agent ends, and whichever call fails: the agent and the client of the election, where they
-- were created, are closed once, the client before the agent, and nothing is started, joined or watched
-- while they are not there. No master makes the etcd client of the watch; any other node makes it at most
-- once, and where it did, that client alone is left open.
pub run_agent_closes :
    (w : Calls) (mon : MonitoringConfig) (conf : LeaderConfig) (key : Text) (peers : List Text)
    (s : AgentState)
    → after_all idle s.events ≡ idle
    → (after_all idle (run_agent w mon conf key peers s).1.events ≡ idle)
      ⊎ ((after_all idle (run_agent w mon conf key peers s).1.events ≡ watch_left)
          × (conf.is_master ≡ false))
unfolding run_agent
run_agent_closes w mon conf key peers s h = from (check_and_set_defaults mon)
  where
    from :
        (r : Result MonitoringConfig)
        → (phase (continue r (with_new w conf key peers s h) s).1 ≡ idle)
          ⊎ ((phase (continue r (with_new w conf key peers s h) s).1 ≡ watch_left)
              × (conf.is_master ≡ false))
    from (err e) = inl h
    from (ok checked) = with_new-phase w conf key peers s h checked
