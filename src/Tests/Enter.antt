-- ===== src/Tests/Enter.antt =====
-- Processes in a container that passes its proxy on.
use planet.Box.Enter.{ProcessConfig, EnterAnswers, enter, success}
use planet.Box.Enter.Killing.{enter-killed, has_started, has_terminated, is_exit}
use planet.Env.{EnvVars, has}
use planet.Trace.{system, err, ok}
use planet.Env.Names.{IsUnique}
use planet.Base.{◌≡◌, refl, ◌↔◌, true, false, not, ◌&&◌, [], ◌∷◌, codes, text_eq}

abbrev proxy : EnvVars
proxy =
    (record { name = codes "http_proxy"; val = codes "http://10.0.0.9:3128" })
    ∷ (record { name = codes "TERM"; val = codes "dumb" })
    ∷ []

abbrev own : EnvVars
own = (record { name = codes "TERM"; val = codes "screen" }) ∷ []

proxy-IsUnique : IsUnique proxy
unfolding has text_eq
proxy-IsUnique = (refl, (refl, tt))

abbrev shell : ProcessConfig
shell = record {
  has_tty = true;
  args = codes "/bin/bash" ∷ [];
  user = codes "root";
  env = own;
  process_label = [];
}

abbrev answers : EnterAnswers
answers = record {
  file_env = ok proxy;
  root_uid = ok tt;
  root_gid = ok tt;
  setup = ok tt;
  run = ok tt;
  console = ok tt;
  post_start = err (system 9);
  forwarded = ok 0;
}

enter-killed_example :
    let (ended, events) = enter answers shell in
    (has_terminated events ≡ has_started events && not (is_exit ended))
    × ((ended ≡ success) ↔ (
        (has_started events ≡ true) × (has_terminated events ≡ false) × (answers.forwarded ≡ ok 0)))
enter-killed_example = enter-killed answers shell
