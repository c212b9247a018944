-- ===== src/Leader/Callbacks.antt =====
-- What the callbacks on the leader key do, and that their order does not matter.
use planet.Base.{
  ◌≡◌, inl, inr, List, [], ◌∷◌, ◌++◌, append_assoc, append-nil, arith, if◌then◌else◌, Bool-cases,
  Text, codes, text_eq,
}
use planet.Trace.{Result}
use planet.Leader.{
  LeaderConfig, Member, elected_units, units_command, on_leader_units, on_leader_event,
  on_leader_dns,
}

abbrev pub with_units : Text → List Text → List (Text × Text)
with_units command [] = []
with_units command (u ∷ us) = (command, u) ∷ with_units command us

pub units_command-commands :
    (systemctl : Text → Text → Result (Unit {0})) (command : Text) (units : List Text) (m : Member)
    → (units_command systemctl command units m).1
      ≡ record m { commands = m.commands ++ with_units command units }
unfolding units_command
units_command-commands systemctl command [] m = rw append-nil
units_command-commands systemctl command (u ∷ us) m = ground (
  arith,
  units_command-commands systemctl command us
      (record m { commands = m.commands ++ (command, u) ∷ [] }),
  append_assoc m.commands ((command, u) ∷ []) (with_units command us),
)

-- When the leader key changes, all three units of a master are started on the node whose address is
-- the new value and stopped on every other, in this order and whichever of them fail; nothing else
-- of the node changes.
pub on_leader_units_lem :
    (systemctl : Text → Text → Result (Unit {0})) (conf : LeaderConfig) (new : Text) (m : Member)
    → on_leader_units systemctl conf new m ≡ record m {
      commands =
          m.commands
          ++ with_units
              (if text_eq new conf.public_ip then codes "start" else codes "stop")
              elected_units;
    }
unfolding on_leader_units
on_leader_units_lem systemctl conf new m = elim (Bool-cases (text_eq new conf.public_ip)) [
  | inl e ↦ rw e (units_command-commands systemctl (codes "start") elected_units m)
  | inr e ↦ rw e (units_command-commands systemctl (codes "stop") elected_units m)
]

module _ (systemctl : Text → Text → Result (Unit {0})) (conf : LeaderConfig) (prev new : Text)
    (m : Member) where
  -- The callbacks that run on a change of the leader key lead to one state, in whatever order two of
  -- them run.
  leader_callbacks_commute :
      (on_leader_event conf prev new (on_leader_units systemctl conf new m)
        ≡ on_leader_units systemctl conf new (on_leader_event conf prev new m))
      × (on_leader_dns new (on_leader_units systemctl conf new m)
          ≡ on_leader_units systemctl conf new (on_leader_dns new m))
      × (on_leader_dns new (on_leader_event conf prev new m)
          ≡ on_leader_event conf prev new (on_leader_dns new m))
  unfolding on_leader_event on_leader_dns
  leader_callbacks_commute = (
    ground (
      arith,
      on_leader_units_lem systemctl conf new m,
      on_leader_units_lem systemctl conf new (on_leader_event conf prev new m),
    ),
    ground (
      arith,
      on_leader_units_lem systemctl conf new m,
      on_leader_units_lem systemctl conf new (on_leader_dns new m),
    ),
    ground arith,
  )
