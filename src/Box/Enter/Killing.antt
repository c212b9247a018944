-- ===== src/Box/Enter/Killing.antt =====
-- What is left of a process when `enter` returns.
use planet.Trace.{ok}
use planet.Box.Enter.{
  ProcessEvent, started, terminated, Ended, success, failure, exit_code, failed, EnterAnswers,
  ProcessConfig, enter, supervise,
}
use planet.Base.{◌≡◌, ◌↔◌, Bool, true, false, not, ◌&&◌, ◌||◌, List, [], ◌∷◌, arith}

abbrev is_started : ProcessEvent → Bool
is_started (started _ _) = true
is_started _ = false

abbrev is_terminated : ProcessEvent → Bool
is_terminated terminated = true
is_terminated _ = false

-- Whether the process was started, and whether it was killed.
abbrev pub has_started : List ProcessEvent → Bool
has_started [] = false
has_started (e ∷ es) = is_started e || has_started es

abbrev pub has_terminated : List ProcessEvent → Bool
has_terminated [] = false
has_terminated (e ∷ es) = is_terminated e || has_terminated es

abbrev pub is_exit : Ended → Bool
is_exit success = true
is_exit (failure (exit_code _)) = true
is_exit (failure (failed _)) = false

-- A process that is started has exited by itself, its status 0 just when the call succeeds, or it is
-- killed; and one that was not started is not killed.
pub enter-killed :
    (a : EnterAnswers) (config : ProcessConfig)
    → let (ended, events) = enter a config in
      (has_terminated events ≡ has_started events && not (is_exit ended))
      × ((ended ≡ success)
          ↔ ((has_started events ≡ true) × (has_terminated events ≡ false) × (a.forwarded ≡ ok 0)))
unfolding enter supervise
enter-killed a config = ground arith
