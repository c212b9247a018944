-- ===== src/Tests/Leader.antt =====
-- A master with the address 10.0.0.1 that is elected and then taken out of the election.
use planet.Trace.{system, err, ok, Result}
use planet.Base.{◌≡◌, refl, true, false, none, [], ◌∷◌, Text, codes, text_eq}
use planet.Os.{calm}
use planet.Leader.{parse_bool, on_leader_units, on_election, LeaderConfig, Member, begin}
use planet.Leader.Election.{election, units, here, next, IsSound, IsFresh, Reach, Reach-IsSound}

abbrev pub conf : LeaderConfig
conf = record { public_ip = codes "10.0.0.1"; is_master = true; election_enabled = true }

abbrev pub fresh : Member
fresh = record {
  cancel_voter = false;
  voters = 0;
  commands = [];
  events = [];
  reported = [];
  disk = calm (λ q. none);
}

abbrev pub started : Text → Text → Result (Unit {0})
started command unit = ok tt

abbrev broken : Text → Text → Result (Unit {0})
broken command unit = err (system 5)

fresh-IsFresh : IsFresh fresh
fresh-IsFresh = record { no_handle = refl; no_voter = refl; no_error = refl }

abbrev elected : Member
elected = on_leader_units started conf conf.public_ip (begin started conf (ok tt) fresh).1

abbrev pub paused : Member
paused = on_election (codes "false") (ok tt) elected

run : Reach conf (begin started conf (ok tt) fresh).1 paused
run = next (next here (units started conf.public_ip _)) (election (codes "false") (ok tt) elected)

pub paused-IsSound : IsSound paused
paused-IsSound = Reach-IsSound started conf (ok tt) fresh paused fresh-IsFresh run

Reach-IsSound_example : IsSound paused
Reach-IsSound_example = Reach-IsSound started conf (ok tt) fresh paused fresh-IsFresh run

paused_commands :
    (paused.commands
      ≡ (codes "start", codes "kube-controller-manager.service")
        ∷ (codes "start", codes "kube-scheduler.service")
        ∷ (codes "start", codes "kube-apiserver.service")
        ∷ [])
    × (paused.voters ≡ 0)
    × (elected.voters ≡ 1)
unfolding on_leader_units on_election begin parse_bool text_eq
paused_commands = (refl, refl, refl)
