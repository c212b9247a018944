-- ===== src/Systemd.antt =====
-- The machine as the etcd commands see it: its disk and systemd. `systemctl` runs a command; what it
-- answers is outside.
use planet.Trace.{err, ok, Result, Exec, Error}
use planet.Os.{Disk}
use planet.Base.{Option, none, some, List, [], ◌∷◌, ◌++◌, Text}

pub record Command : Type 0 where
  pub verb : Text
  pub unit : Text

-- The commands run so far, the last one last, and the answers of those to come: past their end
-- every command succeeds.
pub record Host : Type 0 where
  pub disk : Disk
  pub commands : List Command
  pub answers : List (Option Error)

abbrev answer : List (Option Error) → Result (Unit {0})
answer [] = ok tt
answer (none ∷ _) = ok tt
answer (some e ∷ _) = err e

abbrev other_answers : List (Option Error) → List (Option Error)
other_answers [] = []
other_answers (_ ∷ rest) = rest

unfoldable pub systemctl : Text → Text → Exec Host (Unit {0})
systemctl verb unit h = (
  answer h.answers,
  record h {
    commands = h.commands ++ record { verb = verb; unit = unit } ∷ [];
    answers = other_answers h.answers;
  },
)

abbrev pub on_disk : Exec Disk (Unit {0}) → Exec Host (Unit {0})
on_disk m h = let (r, d) = m h.disk in (r, record h { disk = d })
