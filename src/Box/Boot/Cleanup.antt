-- ===== src/Box/Boot/Cleanup.antt =====
-- What is called when a container is started.
use planet.Trace.{continue, Result, ok, err, Error, ◌>>=◌, lift}
use planet.Box.Boot.{
  prepare, on_disk, check_and_set_defaults, destroyed, ran, created, Event, run_container, start,
  create_and_run, World,
}
use planet.Os.{Disk}
use planet.Box.Container.{ContainerConfig, BoxConfig}
use planet.Base.{◌≡◌, refl, List, [], ◌∷◌, Text}

-- How a start can end, with the calls on the way.
pub data Outcome : Result (Unit {0}) → List Event → Type 0 where
  -- The container was not asked for, or could not be created.
  refused : (e : Error) → Outcome (err e) []
  not_created : (e : Error) (c : ContainerConfig) → Outcome (err e) (created c (err e) ∷ [])
  -- It was created and is destroyed again, where `answer` is what that call says.
  cleaned :
      (e : Error) (c : ContainerConfig) (args env : List Text) (user : Text)
      (run answer : Result (Unit {0}))
      → Outcome (err e) (created c (ok tt) ∷ ran args env user run ∷ destroyed answer ∷ [])
  running :
      (c : ContainerConfig) (args env : List Text) (user : Text)
      → Outcome (ok tt) (created c (ok tt) ∷ ran args env user (ok tt) ∷ [])

create_and_run-Outcome :
    (w : World) (cfg : BoxConfig) (c : ContainerConfig) (d : Disk) (cr ru st : Result (Unit {0}))
    → w.create ≡ cr
    → w.run ≡ ru
    → w.status ≡ st
    → Outcome
        (create_and_run w cfg c (record { disk = d; events = [] })).0
        (create_and_run w cfg c (record { disk = d; events = [] })).1.events
unfolding create_and_run run_container
create_and_run-Outcome w cfg c d (err e) ru st a b x = rw a (not_created e c)
create_and_run-Outcome w cfg c d (ok _) (err e) st a b x =
    rw (a, b) (cleaned e c cfg.init_args cfg.init_env cfg.init_user (err e) w.destroy)
create_and_run-Outcome w cfg c d (ok _) (ok _) (err e) a b x =
    rw (a, b, x) (cleaned e c cfg.init_args cfg.init_env cfg.init_user (ok tt) w.destroy)
create_and_run-Outcome w cfg c d (ok _) (ok _) (ok _) a b x =
    rw (a, b, x) (running c cfg.init_args cfg.init_env cfg.init_user)

prepared :
    (w : World) (r : Result (BoxConfig × ContainerConfig)) (d : Disk)
    → let s = continue r (λ p. create_and_run w p.0 p.1) (record { disk = d; events = [] }) in
      Outcome s.0 s.1.events
prepared w (err e) d = refused e
prepared w (ok (cfg, c)) d = create_and_run-Outcome w cfg c d w.create w.run w.status refl refl refl

checked :
    (w : World) (r : Result BoxConfig) (d : Disk)
    → let s =
        (lift r >>= λ cfg. on_disk (prepare w cfg) >>= λ p. create_and_run w p.0 p.1)
          (record { disk = d; events = [] }) in
      Outcome s.0 s.1.events
checked w (err e) d = refused e
checked w (ok cfg) d = prepared w (prepare w cfg d).0 (prepare w cfg d).1

-- Whatever fails: a start that fails has not asked for a container, or could not create one, or has created
-- one, run its process and called `Destroy` for it as its last call; a start that succeeds has created one
-- container and run its process.
pub start-Outcome :
    (w : World) (given : BoxConfig) (d : Disk)
    → Outcome
        (start w given (record { disk = d; events = [] })).0
        (start w given (record { disk = d; events = [] })).1.events
unfolding start
start-Outcome w given d = checked w (check_and_set_defaults given) d
