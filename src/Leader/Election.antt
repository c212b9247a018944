-- ===== src/Leader/Election.antt =====
-- A node has at most one voter, in every interleaving of the callbacks.
use mathlib.Core.List.{concat-ne-nil}
use planet.Base.{◌≤◌, ◌≡◌, true, false, [], arith, if◌then◌else◌, Text, codes}
use planet.Trace.{err, Result, ok}
use planet.Leader.{
  elected_units, parse_bool, LeaderConfig, Member, on_leader_units, on_leader_event, on_leader_dns,
  on_election, begin,
}
use planet.Leader.Callbacks.{units_command-commands, on_leader_units_lem}

-- One callback runs.
pub data Step (conf : LeaderConfig) : Member → Member → Type 0 where
  units :
      (systemctl : Text → Text → Result (Unit {0})) (new : Text) (m : Member)
      → Step conf m (on_leader_units systemctl conf new m)
  event : (prev new : Text) (m : Member) → Step conf m (on_leader_event conf prev new m)
  dns : (new : Text) (m : Member) → Step conf m (on_leader_dns new m)
  election :
      (new : Text) (added : Result (Unit {0})) (m : Member) → Step conf m (on_election new added m)

pub data Reach (conf : LeaderConfig) (s : Member) : Member → Type 0 where
  here : Reach conf s s
  next : {t u : Member} → Reach conf s t → Step conf t u → Reach conf s u

pub record IsSound (m : Member) : Type 0 where
  pub at_most_one : m.voters ≤ 1
  pub none_left : m.cancel_voter ≡ false → m.voters ≡ 0
  pub one_active : m.cancel_voter ≡ true → m.reported ≡ [] → m.voters ≡ 1

on_election-IsSound :
    (new : Text) (added : Result (Unit {0})) (m : Member)
    → IsSound m
    → IsSound (on_election new added m)
unfolding on_election
on_election-IsSound new (ok _) m h = ground arith
on_election-IsSound new (err e) m h = ground (arith, concat-ne-nil e m.reported)

Step-IsSound : {conf : LeaderConfig} {m n : Member} → Step conf m n → IsSound m → IsSound n
unfolding on_leader_event on_leader_dns
Step-IsSound {conf} (units systemctl new m) h =
    rw (on_leader_units_lem systemctl conf new m)
      (record { at_most_one = h.at_most_one; none_left = h.none_left; one_active = h.one_active })
Step-IsSound (event prev new m) h = ground arith
Step-IsSound (dns new m) h = record {
  at_most_one = h.at_most_one;
  none_left = h.none_left;
  one_active = h.one_active;
}
Step-IsSound (election new added m) h = on_election-IsSound new added m h

-- The state of a client that has no voter yet.
pub record IsFresh (m : Member) : Type 0 where
  pub no_handle : m.cancel_voter ≡ false
  pub no_voter : m.voters ≡ 0
  pub no_error : m.reported ≡ []

begin-IsSound :
    (systemctl : Text → Text → Result (Unit {0})) (conf : LeaderConfig) (added : Result (Unit {0}))
    (m : Member)
    → IsFresh m
    → IsSound (begin systemctl conf added m).1
unfolding begin
begin-IsSound systemctl conf added m h =
    ground (arith, units_command-commands systemctl (codes "stop") elected_units m)

-- From a fresh client, after its start and any callbacks in any order, a node never has more than one
-- voter, has none while `cancelVoter` is not set, and has one while it is set and no error was
-- reported.
pub Reach-IsSound :
    (systemctl : Text → Text → Result (Unit {0})) (conf : LeaderConfig) (added : Result (Unit {0}))
    (m n : Member)
    → IsFresh m
    → Reach conf (begin systemctl conf added m).1 n
    → IsSound n
Reach-IsSound systemctl conf added m n h r = walk r (begin-IsSound systemctl conf added m h)
  where
    walk : {a b : Member} → Reach conf a b → IsSound a → IsSound b
    walk here s = s
    walk (next r st) s = Step-IsSound st (walk r s)

-- As long as no error was reported and `AddVoter` succeeds, a node votes after a change of the
-- election key exactly when the new value reads as true.
pub election_follows_key :
    (new : Text) (m : Member)
    → IsSound m
    → m.reported ≡ []
    → (on_election new (ok tt) m).voters ≡ (if parse_bool new then 1 else 0)
unfolding on_election
election_follows_key new m h e = ground arith
