-- ===== src/Leader/Agent/Commands.antt =====
-- `leader pause` and `leader resume`: from the key that they write to the voters of the members that see
-- the change.
use planet.Base.{
  ◌≡◌, refl, sym, ap, ◌∙◌, Bool, true, false, some, [], arith, if◌then◌else◌, Text, text_eq,
  text_eq_refl,
}
use planet.Trace.{Exec, Result, ok, err}
use planet.Leader.{Member, on_election, parse_bool}
use planet.Leader.Election.{IsSound, election_follows_key}
use planet.Leader.Agent.{leader_pause, leader_resume, AgentState, enable_election, format_bool}

-- `ParseBool` reads back what `FormatBool` prints.
parse_bool-format_bool : (b : Bool) → parse_bool (format_bool b) ≡ b
unfolding parse_bool text_eq
parse_bool-format_bool true = refl
parse_bool-format_bool false = refl

enable_election-store :
    (client written : Result (Unit {0})) (key : Text) (b : Bool) (s : AgentState)
    → (enable_election client written key b s).0 ≡ ok tt
    → (enable_election client written key b s).1.store key ≡ some (format_bool b)
unfolding enable_election
enable_election-store (err e) written key b s h = absurd (cc h)
enable_election-store (ok u) (err e) key b s h = absurd (cc h)
enable_election-store (ok u) (ok v) key b s h = ground (arith, text_eq_refl key)

-- `leader resume` where `b` holds, and `leader pause` where it does not.
unfoldable pub command :
    Bool → Result (Unit {0}) → Result (Unit {0}) → Text → Exec AgentState (Unit {0})
command true = leader_resume
command false = leader_pause

command-enable_election :
    (b : Bool) (client written : Result (Unit {0})) (key : Text) (s : AgentState)
    → command b client written key s ≡ enable_election client written key b s
unfolding command leader_resume leader_pause
command-enable_election true client written key s = refl
command-enable_election false client written key s = refl

-- After a successful `leader pause` or `leader resume`, a member that is told the stored value and whose
-- state is sound and without a reported error has one voter after a resume and none after a pause, where
-- `AddVoter` succeeds.
pub enable_election_followed :
    (b : Bool) (client written : Result (Unit {0})) (key : Text) (s : AgentState) (v : Text)
    (m : Member)
    → IsSound m
    → m.reported ≡ []
    → (command b client written key s).0 ≡ ok tt
    → (command b client written key s).1.store key ≡ some v
    → (on_election v (ok tt) m).voters ≡ (if b then 1 else 0)
enable_election_followed b client written key s v m sound quiet h k =
    let same = command-enable_election b client written key s in
    let done = ap (λ x. x.0) (sym same) ∙ h in
    let stored = enable_election-store client written key b s done in
    let found = ap (λ x. x.1.store key) same in
    let reads : parse_bool v ≡ b = cc (parse_bool-format_bool b, stored, found, k) in
    election_follows_key v m sound quiet ∙ ap (λ x. if x then 1 else 0) reads
