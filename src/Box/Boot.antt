-- ===== src/Box/Boot.antt =====
-- `Start` and `Close` of lib/box/srv.go: the container from its configuration to the running box. The
-- calls of libcontainer are events, and what they answer is outside.
pub mod Cleanup
use planet.Trace.{
  raise, bad_parameter, ok, pure, attempt, Error, err, lift, Result, Exec, ◌>>=◌, ◌>>◌,
}
use planet.Box.Devices.{Node, Status}
use planet.Box.Files.{File, write_file, check_path}
use planet.Box.EnvFile.{write_environment}
use planet.Box.Container.{BoxConfig, Answers, get_libcontainer_config, ContainerConfig}
use planet.Env.{EnvVars}
use planet.Os.{Disk}
use planet.Base.{Bool, false, not, List, [], ◌∷◌, ◌++◌, if◌then◌else◌, Text, codes, is_empty}

-- `checkAndSetDefaults` of lib/box/cfg.go.
unfoldable pub check_and_set_defaults : BoxConfig → Result BoxConfig
check_and_set_defaults r =
    if is_empty r.init_args
    then err bad_parameter
    else ok (record r {
      data_dir = if is_empty r.data_dir then codes "/var/run/planet" else r.data_dir;
      init_user = if is_empty r.init_user then codes "root" else r.init_user;
    })

-- The calls that were made, each with its answer.
pub data Event : Type 0 where
  created : ContainerConfig → Result (Unit {0}) → Event
  -- The arguments, the environment and the user of the process.
  ran : List Text → List Text → Text → Result (Unit {0}) → Event
  destroyed closed : Result (Unit {0}) → Event

pub record BoxHost : Type 0 where
  pub disk : Disk
  pub events : List Event

abbrev pub on_disk : {A : Type 0} → Exec Disk A → Exec BoxHost A
on_disk m h = let (r, d) = m h.disk in (r, record h { disk = d })

-- A call of libcontainer.
abbrev emit : (Result (Unit {0}) → Event) → Result (Unit {0}) → Exec BoxHost (Unit {0})
emit e r h = (r, record h { events = h.events ++ e r ∷ [] })

-- Go's path functions, its globbing and the host as the configuration sees it.
pub record World : Type 0 where
  pub parent : Text → Text
  pub join_path : Text → Text → Text
  pub absolute : Text → Result Text
  pub is_executable : Text → Bool
  pub glob : Text → Result (List Text)
  pub stat : Text → Result Status
  pub auto_created : List Node
  pub host : Answers
  pub container_id : Text
  -- What systemd and libcontainer answer.
  pub use_systemd : Bool
  pub factory : Result (Unit {0})
  pub create : Result (Unit {0})
  pub run : Result (Unit {0})
  pub status : Result (Unit {0})
  pub destroy : Result (Unit {0})
  pub close : Result (Unit {0})

unfoldable pub write_env_files : World → Text → List (Text × EnvVars) → Exec Disk (Unit {0})
unfolding write_environment
write_env_files w rootfs [] = pure tt
write_env_files w rootfs ((path, env) ∷ rest) = do
  write_environment w.parent (w.join_path rootfs path) env
  write_env_files w rootfs rest

unfoldable pub write_files : World → Text → List File → Exec Disk (Unit {0})
unfolding write_file
write_files w rootfs [] = pure tt
write_files w rootfs (f ∷ rest) = do
  write_file w.parent (w.join_path rootfs f.path) f
  write_files w rootfs rest

-- `getLibContainerFactory`
unfoldable pub get_lib_container_factory : World → Result (Unit {0})
get_lib_container_factory w = if not w.use_systemd then err bad_parameter else w.factory

-- The deferred removal of a container whose process did not start. Its own error is only logged.
abbrev or_destroy : World → Exec BoxHost (Unit {0}) → Exec BoxHost (Unit {0})
or_destroy w m = do
  r ← attempt m
  elim r [ ok _ ↦ pure tt | err e ↦ do attempt (emit destroyed w.destroy); raise e ]

unfoldable pub run_container : World → BoxConfig → Exec BoxHost (Unit {0})
run_container w cfg =
    or_destroy w (do emit (ran cfg.init_args cfg.init_env cfg.init_user) w.run; lift w.status)

-- The container's id for systemd in the environment of the process.
abbrev with_uuid : Text → BoxConfig → BoxConfig
with_uuid id cfg = record cfg { init_env = cfg.init_env ++ (codes "container_uuid=" ++ id) ∷ [] }

-- What happens on the host before the container is created.
unfoldable pub prepare : World → BoxConfig → Exec Disk (BoxConfig × ContainerConfig)
unfolding check_path write_env_files write_files get_libcontainer_config
prepare w cfg = do
  rootfs ← check_path w.absolute w.is_executable cfg.rootfs false
  write_env_files w rootfs cfg.env_files
  write_files w rootfs cfg.files
  lift (get_lib_container_factory w)
  config ←
      get_libcontainer_config w.glob w.stat w.auto_created w.host w.container_id rootfs
        (with_uuid w.container_id cfg)
  pure (with_uuid w.container_id cfg, config)

-- From the configuration on.
unfoldable pub create_and_run : World → BoxConfig → ContainerConfig → Exec BoxHost (Unit {0})
unfolding run_container
create_and_run w cfg config = do emit (created config) w.create; run_container w cfg

unfoldable pub start : World → BoxConfig → Exec BoxHost (Unit {0})
unfolding check_and_set_defaults
start w given = do
  cfg ← lift (check_and_set_defaults given)
  (cfg', config) ← on_disk (prepare w cfg)
  create_and_run w cfg' config

abbrev errors : Result (Unit {0}) → List Error
errors (ok _) = []
errors (err e) = e ∷ []

-- `Close`: both are closed whatever the first says, and the errors of both come back.
unfoldable pub close : Bool → Bool → World → Exec BoxHost (List Error)
close has_container has_listener w = do
  a ← attempt (if has_container then emit destroyed w.destroy else pure tt)
  b ← attempt (if has_listener then emit closed w.close else pure tt)
  pure (errors a ++ errors b)
