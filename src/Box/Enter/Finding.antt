-- ===== src/Box/Enter/Finding.antt =====
-- Which container a process is run in.
use planet.Trace.{err, ok}
use planet.Box.Enter.{
  RunStatus, Loaded, missing, broken, found, running, stopped, Held, search_running, get_container,
}
use planet.Base.{◌≡◌, refl, none, some, List, [], ◌∷◌, ◌++◌, Text, All}

-- An entry that is no running container and stops nothing.
abbrev IsPassed : Loaded → Type 0
IsPassed missing = Unit
IsPassed (found _ (ok stopped)) = Unit
IsPassed (found _ (ok RunStatus.other_status)) = Unit
IsPassed _ = ⊥

search_running-append :
    (held : Held) (before rest : List Loaded) (id : Text)
    → All IsPassed before
    → search_running held (before ++ found id (ok running) ∷ rest) ≡ ok (some id, some running)
unfolding search_running
search_running-append held [] rest id h = refl
search_running-append (c, s) (missing ∷ before) rest id h =
    search_running-append (none, s) before rest id h.1
search_running-append (c, s) (found i (ok stopped) ∷ before) rest id h =
    search_running-append (some i, some stopped) before rest id h.1
search_running-append (c, s) (found i (ok RunStatus.other_status) ∷ before) rest id h =
    search_running-append (some i, some RunStatus.other_status) before rest id h.1
search_running-append (c, s) (found i (ok running) ∷ before) rest id h = absurd h.0
search_running-append (c, s) (found i (err e) ∷ before) rest id h = absurd h.0
search_running-append (c, s) (broken e ∷ before) rest id h = absurd h.0

-- Among entries that do not fail, the first running container is taken, whatever stands behind it.
pub get_container-append :
    (before rest : List Loaded) (id : Text)
    → All IsPassed before
    → get_container (before ++ found id (ok running) ∷ rest) ≡ ok id
unfolding get_container
get_container-append [] rest id h = refl
get_container-append (b ∷ before) rest id h =
    rw (search_running-append (none, none) (b ∷ before) rest id h, get_container) refl
