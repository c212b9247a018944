-- ===== src/Console.antt =====
-- tool/planet/enter.go: the processes that the program runs in its container. The streams are left out.
pub mod Variables
use planet.Base.{Bool, false, List, [], ◌∷◌, if◌then◌else◌, Text, codes}
use planet.Box.Enter.{ProcessConfig}
use planet.Env.{upsert}
use planet.Trace.{Result, ok, err}

abbrev pub container_environment : Text
container_environment = codes "/etc/container-environment"

abbrev pub kubectl_config : Text
kubectl_config = codes "/etc/kubernetes/kubectl.kubeconfig"

abbrev pub default_path : Text
default_path = codes "/usr/local/bin:/usr/local/sbin:/usr/bin:/usr/sbin:/bin:/sbin"

-- What `enter` adds to the environment of a process.
unfoldable pub with_environment : ProcessConfig → ProcessConfig
unfolding upsert
with_environment p = record p {
  env =
      upsert
        (upsert (upsert p.env (codes "ENV") container_environment) (codes "BASH_ENV")
          container_environment)
        (codes "KUBECONFIG") kubectl_config;
}

-- `enterConfig`, less the streams.
pub record ConsoleConfig : Type 0 where
  pub cmd : Text
  pub user : Text
  pub tty : Bool
  pub args : List Text

-- The process of `enterConsole`. It takes no user from the configuration.
abbrev pub console_process : ConsoleConfig → ProcessConfig
console_process c = record {
  has_tty = c.tty;
  args = c.cmd ∷ c.args;
  user = [];
  env = record { name = codes "PATH"; val = default_path } ∷ [];
  process_label = [];
}

-- `enterConsole` up to the process that it runs. `win_size` tells whether the terminal has a size.
unfoldable pub enter_console : Result (Unit {0}) → ConsoleConfig → Result ProcessConfig
unfolding with_environment
enter_console win_size c =
    if c.tty
    then (elim win_size [ err e ↦ err e | ok _ ↦ ok (with_environment (console_process c)) ])
    else ok (with_environment (console_process c))

-- The process of `stop`.
unfoldable pub stop_process : ProcessConfig
unfolding with_environment
stop_process = with_environment (record {
  has_tty = false;
  args = codes "/bin/systemctl" ∷ codes "halt" ∷ [];
  user = codes "root";
  env = [];
  process_label = codes "system_u:system_r:gravity_container_init_t:s0";
})
