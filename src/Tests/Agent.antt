-- ===== src/Tests/Agent.antt =====
-- An agent whose watch of the masters fails, and a member that hears of a pause.
use planet.Leader.{parse_bool, on_leader_units, LeaderConfig, on_election, begin}
use planet.Leader.Agent.{
  watch_masters, AgentState, Calls, agent_created, agent_started, agent_closed, client_created,
  client_closed, resolver_set, joined, run_agent, run_created, join_cluster, start_leader_client,
  set_up_callbacks, serve, leader_resume, leader_view, enable_election,
}
use planet.Leader.Agent.Closing.{watch_left, run_agent_closes, after_all, idle}
use planet.Leader.Agent.Commands.{command, enable_election_followed}
use planet.Monitoring.{check_and_set_defaults, add_checkers, add_to_node, register}
use planet.Tests.Leader.{fresh, conf, started, paused-IsSound, paused}
use planet.Tests.Monitoring.{answers, worker}
use planet.Base.{◌≡◌, refl, ◌⊎◌, true, false, none, List, [], ◌∷◌, Text, codes, text_eq}
use planet.Trace.{ok, err, not_found, system}

abbrev calls : Calls
calls = record {
  hostname = ok tt;
  upsert_cgroups = λ b. ok tt;
  etcd_checked = ok tt;
  etcd_client = ok tt;
  set_mode = ok tt;
  leader_client = ok tt;
  systemctl = started;
  added_voter = ok tt;
  new_agent = ok tt;
  metrics = ok tt;
  checkers = answers;
  started = ok tt;
  is_member = false;
  join = ok tt;
  resolver = ok tt;
  watch_client = err not_found;
  ended = err (system 4);
}

abbrev on_node : LeaderConfig
on_node = record conf { is_master = false }

abbrev off : AgentState
off = record { store = λ k. none; events = []; member = fresh }

abbrev mode_key : Text
mode_key = codes "/planet/cluster/election/10.0.0.1"

abbrev peers : List Text
peers = codes "10.0.0.2" ∷ []

run_agent_closes_example :
    (after_all idle (run_agent calls worker on_node mode_key peers off).1.events ≡ idle)
    ⊎ ((after_all idle (run_agent calls worker on_node mode_key peers off).1.events ≡ watch_left)
        × (on_node.is_master ≡ false))
unfolding after_all
run_agent_closes_example = run_agent_closes calls worker on_node mode_key peers off refl

-- Where the watch starts, its client is left behind by a signal.
left_behind :
    after_all idle
      (run_agent
        (record calls { watch_client = ok tt; ended = ok tt })
        worker
        on_node
        mode_key
        peers
        off).1.events
    ≡ watch_left
unfolding after_all run_agent run_created join_cluster start_leader_client set_up_callbacks serve
    watch_masters begin check_and_set_defaults add_checkers add_to_node register
left_behind = refl

off_events :
    (run_agent calls worker on_node mode_key peers off).1.events
    ≡ agent_created
      ∷ agent_started
      ∷ joined peers
      ∷ client_created
      ∷ resolver_set
      ∷ client_closed
      ∷ agent_closed
      ∷ []
unfolding run_agent run_created join_cluster start_leader_client set_up_callbacks serve begin
    check_and_set_defaults add_checkers add_to_node register
off_events = refl

enable_election_followed_example : (on_election (codes "true") (ok tt) paused).voters ≡ 1
unfolding command leader_resume enable_election on_election parse_bool on_leader_units begin
enable_election_followed_example =
    enable_election_followed true (ok tt) (ok tt) mode_key off (codes "true") paused paused-IsSound
      refl refl refl

view_mode :
    (leader_view (ok tt) mode_key (leader_resume (ok tt) (ok tt) mode_key off).1).0
    ≡ ok (codes "true")
unfolding leader_view leader_resume enable_election text_eq
view_mode = refl
