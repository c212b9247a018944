-- ===== src/Start/Proxy/Inherited.antt =====
-- The proxy settings of the start, as a process in the container sees them: `configureProxy` moves them,
-- `box.Start` writes them to a file, and `enter` reads it.
use planet.Box.EnvFile.{write_environment, read_environment}
use planet.Box.EnvFile.RoundTrip.{IsWritable, write-read}
use planet.Box.Enter.{inherit}
use planet.Box.Enter.Proxy.{get-inherit}
use planet.Start.Proxy.Moved.{configure_proxy_moves}
use planet.Trace.{◌>>◌, ok}
use planet.Env.{upsert, has, get, delete, EnvVars}
use planet.Start.Proxy.{
  static_rules, proxy_names, lower_name, with_static, upper_name, move_settings, move_both,
  move_rules, configure_proxy,
}
use planet.Strings.{join, has_text}
use planet.Start.{Config}
use planet.Env.Names.{get-has, upsert-IsUnique, IsUnique}
use planet.Os.{calm, Node}
use planet.Base.{
  ◌≡◌, refl, sym, ap, ◌∙◌, inl, inr, Bool, true, false, not, ◌||◌, Option, List, [], ◌∷◌,
  Bool-cases, Text, codes, is_empty, All,
}

move_settings-IsUnique :
    (ks : List Text) (env proxy_env : EnvVars)
    → IsUnique proxy_env
    → IsUnique (move_settings ks env proxy_env).1
unfolding move_settings
move_settings-IsUnique [] env proxy_env h = h
move_settings-IsUnique (k ∷ ks) env proxy_env h =
    move_settings-IsUnique ks (delete env k).1 (upsert proxy_env k (delete env k).0)
      (upsert-IsUnique proxy_env k (delete env k).0 h)

move_rules-IsUnique :
    (k v : Text) (proxy_env : EnvVars) → IsUnique proxy_env → IsUnique (move_rules k v proxy_env)
unfolding move_rules
move_rules-IsUnique k v proxy_env h = elim (Bool-cases (is_empty v)) [
  | inl e ↦ rw e h
  | inr e ↦ rw e (upsert-IsUnique proxy_env k (with_static v) h)
]

move_both-IsUnique :
    (swapped : Bool) (upper lower : Text) (proxy_env : EnvVars)
    → IsUnique proxy_env
    → IsUnique (move_both swapped upper lower proxy_env)
unfolding move_both
move_both-IsUnique true upper lower proxy_env h =
    move_rules-IsUnique upper_name upper _ (move_rules-IsUnique lower_name lower proxy_env h)
move_both-IsUnique false upper lower proxy_env h =
    move_rules-IsUnique lower_name lower _ (move_rules-IsUnique upper_name upper proxy_env h)

configure_proxy-IsUnique :
    (swapped : Bool) (c : Config)
    → IsUnique c.proxy_env
    → IsUnique (configure_proxy swapped c).proxy_env
unfolding configure_proxy
configure_proxy-IsUnique swapped c h =
    let (upper, env1) = delete c.env upper_name in
    let (lower, env2) = delete env1 lower_name in
    let moved =
      move_settings-IsUnique proxy_names env2 (move_both swapped upper lower c.proxy_env)
        (move_both-IsUnique swapped upper lower c.proxy_env h) in
    elim (Bool-cases (not (is_empty upper) || not (is_empty lower))) [
      | inl e ↦ rw e moved
      | inr e ↦ rw e (upsert-IsUnique _ upper_name (join (codes ",") static_rules) moved)
    ]

-- What a process without a value of its own sees.
inherited :
    (own proxy_env : EnvVars) (j : Text)
    → IsUnique proxy_env
    → get own j ≡ []
    → get (inherit own proxy_env) j ≡ get proxy_env j
inherited own proxy_env j u e = elim (Bool-cases (has proxy_env j)) [
  | inl h ↦ get-inherit own proxy_env j u ∙ rw e (rw h refl)
  | inr h ↦ get-inherit own proxy_env j u ∙ rw e (rw h (sym (get-has proxy_env j h)))
]

-- Where no call fails, no name is set twice and the moved settings fit the lines of a file: a process that
-- is run in the container and sets no value of its own for a proxy setting sees the value that the start
-- was given for it.
pub inherit-configure_proxy :
    (parent : Text → Text) (path : Text) (nodes : Text → Option Node) (swapped : Bool) (c : Config)
    (own : EnvVars) (j : Text)
    → IsUnique c.env
    → IsUnique c.proxy_env
    → All IsWritable (configure_proxy swapped c).proxy_env
    → has_text j proxy_names ≡ true
    → get own j ≡ []
    → (seen : EnvVars) × (((write_environment parent path (configure_proxy swapped c).proxy_env
            >> read_environment path)
          (calm nodes)).0
        ≡ ok seen)
      × (get (inherit own seen) j ≡ get c.env j)
inherit-configure_proxy parent path nodes swapped c own j u p w h e =
    let unique = configure_proxy-IsUnique swapped c p in
    (
      (configure_proxy swapped c).proxy_env,
      ap (λ r. r.0) (write-read parent path nodes (configure_proxy swapped c).proxy_env unique w),
      inherited own (configure_proxy swapped c).proxy_env j unique e
          ∙ (configure_proxy_moves swapped c j u h).1,
    )
