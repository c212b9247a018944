-- ===== src/Start/Proxy/Moved.antt =====
-- What `configureProxy` does to the values that are read.
use planet.Env.{delete_pair, upsert, get, EnvVars, delete}
use planet.Start.Proxy.{
  static_rules, move_both, lower_name, configure_proxy, proxy_names, upper_name, move_settings,
}
use planet.Strings.{has_text, join}
use planet.Start.{Config}
use planet.Env.Names.{delete-IsUnique, IsUnique}
use planet.Env.Laws.{get-upsert, get-delete}
use planet.Base.{
  ◌≡◌, refl, sym, ap, ◌∙◌, inl, inr, Bool, true, false, not, ◌||◌, List, [], ◌∷◌, arith, Bool-cases,
  Text, codes, text_eq, text_eq_iff, is_empty,
}

abbrev pub Distinct : List Text → Type 0
Distinct [] = Unit
Distinct (k ∷ ks) = (has_text k ks ≡ false) × Distinct ks

-- A name that is not among the moved ones.
move_settings_other :
    (ks : List Text) (env proxy_env : EnvVars) (j : Text)
    → IsUnique env
    → has_text j ks ≡ false
    → (get (move_settings ks env proxy_env).0 j ≡ get env j)
      × (get (move_settings ks env proxy_env).1 j ≡ get proxy_env j)
unfolding move_settings has_text delete
move_settings_other [] env proxy_env j u h = (refl, refl)
move_settings_other (k ∷ ks) env proxy_env j u h =
    let ih =
      move_settings_other ks (delete_pair env k) (upsert proxy_env k (get env k)) j
        (delete-IsUnique env k u) in
    ground (arith, ih, get-delete env k j u, get-upsert proxy_env k (get env k) j)

move_settings_name :
    (ks : List Text) (env proxy_env : EnvVars) (j : Text)
    → IsUnique env
    → Distinct ks
    → has_text j ks ≡ true
    → (get (move_settings ks env proxy_env).0 j ≡ [])
      × (get (move_settings ks env proxy_env).1 j ≡ get env j)
unfolding move_settings has_text delete
move_settings_name [] env proxy_env j u d h = absurd (ground arith)
move_settings_name (k ∷ ks) env proxy_env j u d h =
    let next = upsert proxy_env k (get env k) in
    elim (Bool-cases (text_eq k j)) [
      | inl e ↦
          let same = (text_eq_iff k j).0 e in
          let other =
            move_settings_other ks (delete_pair env k) next j (delete-IsUnique env k u)
              (ap (λ x. has_text x ks) (sym same) ∙ d.0) in
          ground (arith, e, same, other, get-delete env k j u, get-upsert proxy_env k (get env k) j)
      | inr e ↦ ground (
        arith,
        e,
        h,
        move_settings_name ks (delete_pair env k) next j (delete-IsUnique env k u) d.1,
        get-delete env k j u,
      )
    ]

proxy_names-Distinct : Distinct proxy_names
unfolding has_text text_eq
proxy_names-Distinct = (refl, (refl, (refl, (refl, tt))))

exclusions_differ :
    (j : Text)
    → has_text j proxy_names ≡ true
    → (text_eq upper_name j ≡ false) × (text_eq lower_name j ≡ false)
unfolding has_text text_eq
exclusions_differ j h =
    let differ : (k : Text) → has_text k proxy_names ≡ false → text_eq k j ≡ false = λ k n.
      elim (Bool-cases (text_eq k j)) [
        | inl e ↦ absurd (cc (h, n, (text_eq_iff k j).0 e))
        | inr e ↦ e
      ] in
    (differ upper_name refl, differ lower_name refl)

-- The environment behind the removal of the two exclusion lists.
abbrev without_exclusions : EnvVars → EnvVars
without_exclusions env = delete_pair (delete_pair env upper_name) lower_name

without_exclusions-get :
    (env : EnvVars) (j : Text)
    → IsUnique env
    → text_eq upper_name j ≡ false
    → text_eq lower_name j ≡ false
    → get (without_exclusions env) j ≡ get env j
unfolding delete
without_exclusions-get env j u a b =
    let first = (get-delete env upper_name j u).1 in
    let second =
      (get-delete (delete_pair env upper_name) lower_name j (delete-IsUnique env upper_name u)).1 in
    grind (arith, first, second, a, b)

-- Where no variable is set twice: each of the four proxy settings moves from the environment of the
-- container, where it reads as empty afterwards, to that of the proxy.
pub configure_proxy_moves :
    (swapped : Bool) (c : Config) (j : Text)
    → IsUnique c.env
    → has_text j proxy_names ≡ true
    → (get (configure_proxy swapped c).env j ≡ [])
      × (get (configure_proxy swapped c).proxy_env j ≡ get c.env j)
unfolding configure_proxy delete
configure_proxy_moves swapped c j u h =
    let (a, b) = exclusions_differ j h in
    let env = without_exclusions c.env in
    let unique =
      delete-IsUnique (delete_pair c.env upper_name) lower_name
        (delete-IsUnique c.env upper_name u) in
    let upper = get c.env upper_name in
    let lower = get (delete_pair c.env upper_name) lower_name in
    let rules = move_both swapped upper lower c.proxy_env in
    let moved = move_settings_name proxy_names env rules j unique proxy_names-Distinct h in
    let kept = moved.1 ∙ without_exclusions-get c.env j u a b in
    let static = join (codes ",") static_rules in
    elim (Bool-cases (not (is_empty upper) || not (is_empty lower))) [
      | inl e ↦ rw e (moved.0, kept)
      | inr e ↦ rw e (
        moved.0,
        get-upsert (move_settings proxy_names env rules).1 upper_name static j ∙ (rw a kept),
      )
    ]
