-- ===== src/Box/Enter.antt =====
-- lib/box/enter.go: a process in a running container. What libcontainer, the terminal and SELinux answer is
-- outside; the calls that start and kill the process are events.
pub mod Proxy
pub mod Finding
pub mod Killing
use planet.Env.{EnvVars, get, upsert, environ}
use planet.Trace.{bad_parameter, ok, not_found, err, Error, Result}
use planet.Base.{
  ℕ, Bool, not, ◌||◌, Option, none, some, List, [], ◌∷◌, ◌++◌, ◌==◌, if◌then◌else◌, Text, codes,
  is_empty,
}

-- `ProcessConfig` of lib/box/cfg.go, less the streams.
pub record ProcessConfig : Type 0 where
  pub has_tty : Bool
  pub args : List Text
  pub user : Text
  pub env : EnvVars
  pub process_label : Text

-- The loop of `enter` over the environment file of the container: a name that reads as the empty string
-- takes the file's value.
unfoldable pub inherit : EnvVars → EnvVars → EnvVars
unfolding get upsert
inherit own [] = own
inherit own (e ∷ file_env) =
    if is_empty (get own e.name)
    then inherit (upsert own e.name e.val) file_env
    else inherit own file_env

abbrev pub default_process_environ : List Text
default_process_environ = codes "TERM=xterm" ∷ codes "LC_ALL=en_US.UTF-8" ∷ []

-- The environment of the process that is run.
unfoldable pub process_environ : ProcessConfig → EnvVars → List Text
unfolding inherit environ
process_environ config file_env = environ (inherit config.env file_env) ++ default_process_environ

-- `seLinuxProcessLabel`: `computed` stands for what `getSELinuxProcLabel` finds out. It reads the first
-- argument, so a process without arguments ends the program, which is `none`.
unfoldable pub se_linux_process_label : Bool → Bool → (Text → Text) → ProcessConfig → Option Text
se_linux_process_label enabled se_linux computed process =
    if not enabled || not se_linux
    then some []
    else if is_empty process.process_label
    then elim process.args [ [] ↦ none | cmd ∷ _ ↦ some (computed cmd) ]
    else some process.process_label

-- What loading one directory of the container's data gives.
pub data RunStatus : Type 0 where
  running stopped other_status : RunStatus

pub data Loaded : Type 0 where
  -- The container does not exist, or it cannot be loaded.
  missing : Loaded
  broken : Error → Loaded
  -- The container by its id, with its status or why that cannot be told.
  found : Text → Result RunStatus → Loaded

-- The container and the status that the loop of `getContainer` holds.
abbrev pub Held : Type 0
Held = Option Text × Option RunStatus

unfoldable pub search_running : Held → List Loaded → Result Held
search_running held [] = ok held
search_running (c, s) (missing ∷ rest) = search_running (none, s) rest
search_running held (broken e ∷ rest) = err e
search_running (c, s) (found id (err e) ∷ rest) = err e
search_running (c, s) (found id (ok running) ∷ rest) = ok (some id, some running)
search_running (c, s) (found id (ok other) ∷ rest) = search_running (some id, some other) rest

abbrev pub accept : Held → Result Text
accept (none, s) = err not_found
accept (some id, some stopped) = err bad_parameter
accept (some id, s) = ok id

-- `getContainer`, from what loading each directory gives.
unfoldable pub get_container : List Loaded → Result Text
unfolding search_running
get_container [] = err not_found
get_container (d ∷ ds) = elim (search_running (none, none) (d ∷ ds)) [
  | err e ↦ err e
  | ok held ↦ accept held
]

pub data ProcessEvent : Type 0 where
  -- The environment and label that the process is run with.
  started : List Text → Text → ProcessEvent
  -- `SIGKILL` and a wait.
  terminated moved_to_user_cgroup closed_tty : ProcessEvent

-- What the container and the terminal answer.
pub record EnterAnswers : Type 0 where
  pub file_env : Result EnvVars
  pub root_uid : Result (Unit {0})
  pub root_gid : Result (Unit {0})
  pub setup : Result (Unit {0})
  pub run : Result (Unit {0})
  pub console : Result (Unit {0})
  pub post_start : Result (Unit {0})
  pub forwarded : Result ℕ

pub data EnterError : Type 0 where
  failed : Error → EnterError
  -- `ExitError`
  exit_code : ℕ → EnterError

pub data Ended : Type 0 where
  success : Ended
  failure : EnterError → Ended

-- Behind `container.Run`: an error kills the process.
unfoldable pub supervise : EnterAnswers → List ProcessEvent → Ended × List ProcessEvent
supervise a events = elim a.console [
  | err e ↦ (failure (failed e), events ++ terminated ∷ [])
  | ok _ ↦
      let moved = events ++ moved_to_user_cgroup ∷ [] in
      elim a.post_start [
        | err e ↦ (failure (failed e), moved ++ terminated ∷ [])
        | ok _ ↦ elim a.forwarded [
          | err e ↦ (failure (failed e), moved ++ terminated ∷ [])
          | ok s ↦ if not (s == 0) then (failure (exit_code s), moved) else (success, moved)
        ]
      ]
]

-- `enter`. The terminal is closed at the end once it is set up.
unfoldable pub enter : EnterAnswers → ProcessConfig → Ended × List ProcessEvent
unfolding supervise process_environ
enter a config = elim a.file_env [
  | err e ↦ (failure (failed e), [])
  | ok file_env ↦ elim a.root_uid [
    | err e ↦ (failure (failed e), [])
    | ok _ ↦ elim a.root_gid [
      | err e ↦ (failure (failed e), [])
      | ok _ ↦ elim a.setup [
        | err e ↦ (failure (failed e), [])
        | ok _ ↦ elim a.run [
          | err e ↦ (failure (failed e), closed_tty ∷ [])
          | ok _ ↦
              let (ended, events) =
                supervise a (started (process_environ config file_env) config.process_label ∷ []) in
              (ended, events ++ closed_tty ∷ [])
        ]
      ]
    ]
  ]
]
