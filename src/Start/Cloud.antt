-- ===== src/Start/Cloud.antt =====
-- The cloud configuration and the storage driver of Docker, tool/planet/start.go. Base64 and templates
-- are of libraries: what they answer is an argument.
use planet.Env.{EnvVars, upsert}
use planet.Trace.{bad_parameter, system, err, ok, Result}
use planet.Base.{Bool, not, List, [], ◌∷◌, ◌++◌, if◌then◌else◌, Text, codes, text_eq, is_empty}

pub record CloudSettings : Type 0 where
  pub provider : Text
  pub config : Text
  pub cluster_id : Text

-- `decode` is base64, `aws` and `gce` the two templates.
unfoldable pub generate_cloud_config :
    (Text → Result Text) → Result Text → Result Text → CloudSettings → Result Text
unfolding text_eq
generate_cloud_config decode aws gce c =
    if not (is_empty c.config)
    then decode c.config
    else if is_empty c.cluster_id
    then err bad_parameter
    else if text_eq c.provider (codes "aws")
    then aws
    else if text_eq c.provider (codes "gce")
    then gce
    else err bad_parameter

abbrev cloud_options_name : Text
cloud_options_name = codes "KUBE_CLOUD_FLAGS"

abbrev cloud_config_file : Text
cloud_config_file = codes "/etc/kubernetes/cloud-config.conf"

abbrev with_file : Text → EnvVars → Result Text → Result (EnvVars × List (Text × Text))
with_file provider env (err e) = err e
with_file provider env (ok contents) = ok (
  upsert env cloud_options_name
      (codes "--cloud-provider=" ++ (provider ++ (codes " --cloud-config=" ++ cloud_config_file))),
  (cloud_config_file, contents) ∷ [],
)

-- The environment, and the files that are added by path and contents.
unfoldable pub add_cloud_options :
    (Text → Result Text)
    → Result Text
    → Result Text
    → CloudSettings
    → EnvVars
    → Result (EnvVars × List (Text × Text))
unfolding generate_cloud_config upsert
add_cloud_options decode aws gce c env =
    if is_empty c.provider
    then ok (env, [])
    else with_file c.provider env (generate_cloud_config decode aws gce c)

abbrev pub backends : List Text
backends = codes "overlay" ∷ codes "aufs" ∷ []

-- The first file system that the host supports; a check that fails ends the search.
unfoldable pub first_supported : (Text → Result Bool) → List Text → Result Text
first_supported check [] = err (system 0)
first_supported check (fs ∷ rest) =
    let later = first_supported check rest in
    elim (check fs) [ err e ↦ err e | ok found ↦ if found then ok fs else later ]

unfoldable pub pick_docker_storage_backend : (Text → Result Bool) → Result Text
unfolding first_supported
pick_docker_storage_backend check = first_supported check backends
