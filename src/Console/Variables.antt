-- ===== src/Console/Variables.antt =====
-- The environment of a process that `planet enter` and `planet exec` run.
use planet.Base.{◌≡◌, ap, ◌∙◌, ◌&&◌, [], arith, if◌then◌else◌, Text, codes, text_eq, is_empty}
use planet.Box.Enter.{ProcessConfig, inherit}
use planet.Box.Enter.Proxy.{get-inherit}
use planet.Env.{upsert, EnvVars, get, has}
use planet.Console.{
  ConsoleConfig, enter_console, console_process, with_environment, container_environment,
  kubectl_config, default_path,
}
use planet.Env.Laws.{get-upsert}
use planet.Env.Names.{IsUnique}
use planet.Trace.{Result, ok}

-- What the program sets by itself; the empty string for any other name.
unfoldable pub own_value : Text → Text
own_value j =
    if text_eq (codes "KUBECONFIG") j
    then kubectl_config
    else if text_eq (codes "BASH_ENV") j
    then container_environment
    else if text_eq (codes "ENV") j
    then container_environment
    else if text_eq (codes "PATH") j
    then default_path
    else []

get-with_environment :
    (c : ConsoleConfig) (j : Text) → get (with_environment (console_process c)).env j ≡ own_value j
unfolding with_environment own_value get
get-with_environment c j =
    let base : EnvVars = (console_process c).env in
    let e = upsert base (codes "ENV") container_environment in
    let b = upsert e (codes "BASH_ENV") container_environment in
    ground (
      arith,
      get-upsert base (codes "ENV") container_environment j,
      get-upsert e (codes "BASH_ENV") container_environment j,
      get-upsert b (codes "KUBECONFIG") kubectl_config j,
    )

enter_console-ok :
    (win_size : Result (Unit {0})) (c : ConsoleConfig) (p : ProcessConfig)
    → enter_console win_size c ≡ ok p
    → p ≡ with_environment (console_process c)
unfolding enter_console
enter_console-ok win_size c p h = ground (arith, h)

-- A process of the console, run where the environment file names no variable twice: in the variables that
-- `enter` makes for it, in front of the defaults for every process, the search path, the two files for
-- shells and the configuration of kubectl are the program's whatever the file says, and every other variable
-- is the file's.
pub console_environment :
    (win_size : Result (Unit {0})) (c : ConsoleConfig) (p : ProcessConfig) (file_env : EnvVars)
    (j : Text)
    → enter_console win_size c ≡ ok p
    → IsUnique file_env
    → get (inherit p.env file_env) j
      ≡ (if is_empty (own_value j) && has file_env j then get file_env j else own_value j)
console_environment win_size c p file_env j h u =
    let own = enter_console-ok win_size c p h in
    let seen = get-inherit p.env file_env j u in
    let value = ap (λ (q : ProcessConfig). get q.env j) own ∙ get-with_environment c j in
    cc (seen, value)
