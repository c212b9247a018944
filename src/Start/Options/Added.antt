-- ===== src/Start/Options/Added.antt =====
-- The options that end up in the environment.
use planet.Start.Options.{append_fixed, append_set, docker_name, add_docker_options}
use planet.Start.{Config}
use planet.Env.{append, EnvVars, get}
use planet.Env.Laws.{get-append}
use planet.Base.{
  ◌≡◌, refl, ap, ◌∙◌, inl, inr, ◌++◌, if◌then◌else◌, Bool-cases, Text, codes, text_eq_refl,
  is_empty,
}

-- `Append` of one value.
unfoldable pub added : Text → Text → Text
added v old = if is_empty old then v else old ++ (codes " " ++ v)

pub get-append_same : (env : EnvVars) (k v : Text) → get (append env k v) k ≡ added v (get env k)
unfolding added
get-append_same env k v = rw (get-append env k v k) (rw text_eq_refl refl)

pub get-append_set :
    (env : EnvVars) (k setting v : Text)
    → get (append_set k setting v env) k
      ≡ (if is_empty setting then get env k else added v (get env k))
get-append_set env k setting v = elim (Bool-cases (is_empty setting)) [
  | inl e ↦ rw e refl
  | inr e ↦ rw e (get-append_same env k v)
]

-- The options of Docker that are always added.
abbrev pub fixed_options : Text → Text → Text
fixed_options backend old = added (codes "--log-opt max-file=9") (
    added (codes "--log-opt max-size=50m") (
      added (codes "--exec-opt native.cgroupdriver=cgroupfs")
        (added (codes "--storage-driver=" ++ backend) old)))

get-append_fixed :
    (backend : Text) (env : EnvVars)
    → get (append_fixed backend env) docker_name ≡ fixed_options backend (get env docker_name)
unfolding append_fixed
get-append_fixed backend env =
    rw get-append_same (rw get-append_same (rw get-append_same (rw get-append_same refl)))

abbrev pub with_configured : Text → Text → Text
with_configured v old = if is_empty v then old else added v old

-- The options of Docker: those that were set, the storage driver and the fixed ones, the configured
-- ones where there are any, and the one of SELinux where it is on, in this order, each behind a space.
pub add_docker_options_lem :
    (c : Config)
    → get (add_docker_options c).env docker_name ≡ (
        let all =
          with_configured c.docker_options
            (fixed_options c.docker_backend (get c.env docker_name)) in
        if c.selinux then added (codes "--selinux-enabled") all else all)
unfolding add_docker_options
add_docker_options_lem c =
    let env = append_fixed c.docker_backend c.env in
    let all =
      get-append_set env docker_name c.docker_options c.docker_options
      ∙ ap (with_configured c.docker_options) (get-append_fixed c.docker_backend c.env) in
    elim (Bool-cases c.selinux) [
      | inl e ↦ rw e (rw get-append_same (ap (added (codes "--selinux-enabled")) all))
      | inr e ↦ rw e all
    ]
