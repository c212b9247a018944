-- ===== src/Start/Proxy.antt =====
-- `configureProxy` of tool/planet/start.go. Its loop over the map of the two exclusion lists takes
-- them in either order: `swapped` says which.
pub mod Moved
pub mod Inherited
use planet.Strings.{join}
use planet.Env.{upsert, delete, EnvVars}
use planet.Start.{Config}
use planet.Base.{Bool, not, ◌||◌, List, [], ◌∷◌, ◌++◌, if◌then◌else◌, Text, codes, is_empty}

abbrev pub upper_name : Text
upper_name = codes "NO_PROXY"

abbrev pub lower_name : Text
lower_name = codes "no_proxy"

abbrev pub proxy_names : List Text
proxy_names =
    codes "HTTP_PROXY" ∷ codes "http_proxy" ∷ codes "HTTPS_PROXY" ∷ codes "https_proxy" ∷ []

abbrev pub static_rules : List Text
static_rules = codes "0.0.0.0/0" ∷ codes ".local" ∷ []

abbrev pub with_static : Text → Text
with_static v = join (codes ",") (static_rules ++ v ∷ [])

-- One turn of the loop over the exclusion lists.
unfoldable pub move_rules : Text → Text → EnvVars → EnvVars
unfolding upsert join
move_rules k v proxy_env = if is_empty v then proxy_env else upsert proxy_env k (with_static v)

-- The loop over the proxy settings: the environment, then the environment of the proxy.
unfoldable pub move_settings : List Text → EnvVars → EnvVars → EnvVars × EnvVars
unfolding delete upsert
move_settings [] env proxy_env = (env, proxy_env)
move_settings (k ∷ ks) env proxy_env =
    let (v, rest) = delete env k in move_settings ks rest (upsert proxy_env k v)

unfoldable pub move_both : Bool → Text → Text → EnvVars → EnvVars
unfolding move_rules
move_both swapped upper lower proxy_env =
    if swapped
    then move_rules upper_name upper (move_rules lower_name lower proxy_env)
    else move_rules lower_name lower (move_rules upper_name upper proxy_env)

unfoldable pub configure_proxy : Bool → Config → Config
unfolding delete move_both move_settings upsert join
configure_proxy swapped c =
    let (upper, env1) = delete c.env upper_name in
    let (lower, env2) = delete env1 lower_name in
    let (env3, moved) =
      move_settings proxy_names env2 (move_both swapped upper lower c.proxy_env) in
    let found = not (is_empty upper) || not (is_empty lower) in
    record c {
      env = env3;
      proxy_env = if found then moved else upsert moved upper_name (join (codes ",") static_rules);
    }
