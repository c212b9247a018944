-- ===== src/Start/Running/Ending.antt =====
-- What is left when `startAndWait` returns.
use planet.Base.{List, [], ◌∷◌, ◌++◌, Text}
use planet.Box.Boot
use planet.Box.Boot.{BoxHost, World, Event, close, created, ran, destroyed}
use planet.Box.Boot.Cleanup.{Outcome, refused, not_created, cleaned, running, start-Outcome}
use planet.Box.Container.{BoxConfig, ContainerConfig}
use planet.Os.{Disk}
use planet.Start.Files.{Assembly}
use planet.Start.Launch.{LaunchConfig, LaunchHost, start, boot, assemble, watched_units}
use planet.Start.Running.{
  check_and_set_defaults, wait_and_close, then_wait, from_checked, start_and_wait,
}
use planet.Trace.{Error, Result, ok, err, continue, pure, ◌>>=◌}
use planet.Users.Container.{OsUser}

-- No container was asked for, one could not be created, or one was created, its process was run, and
-- `Destroy` is the last call, with whatever answer.
pub data Over : List Event → Type 0 where
  none_created : Over []
  creation_failed : (e : Error) (c : ContainerConfig) → Over (created c (err e) ∷ [])
  over :
      (c : ContainerConfig) (args env : List Text) (user : Text) (run answer : Result (Unit {0}))
      → Over (created c (ok tt) ∷ ran args env user run ∷ destroyed answer ∷ [])

-- After a failed start nothing is left to do; after a successful one, once `Destroy` is called.
abbrev Leaves {ℓ} : {A : Type ℓ} → Result A → List Event → Type 0
Leaves (ok _) es = (answer : Result (Unit {0})) → Over (es ++ destroyed answer ∷ [])
Leaves (err _) es = Over es

Outcome-Leaves : {r : Result (Unit {0})} {es : List Event} → Outcome r es → Leaves r es
Outcome-Leaves (refused e) = none_created
Outcome-Leaves (not_created e c) = creation_failed e c
Outcome-Leaves (cleaned e c args env user run answer) = over c args env user run answer
Outcome-Leaves (running c args env user) = λ answer. over c args env user (ok tt) answer

-- A step that only gives a result leaves the same.
renamed-Leaves :
    {A : Type 0} (r : Result (Unit {0})) (t : BoxHost) (a : A)
    → Leaves r t.events
    → Leaves (continue r (λ _ s. (ok a, s)) t).0 (continue r (λ _ s. (ok a, s)) t).1.events
renamed-Leaves (ok u) t a l = l
renamed-Leaves (err e) t a l = l

module _ {K : Type 0} (h : LaunchHost K) (c : LaunchConfig) where
  boot-Leaves :
      (cfg : BoxConfig) (d : Disk)
      → Leaves
          (boot h c cfg (record { disk = d; events = [] })).0
          (boot h c cfg (record { disk = d; events = [] })).1.events
  unfolding boot
  boot-Leaves cfg d = heard h.listener
    where
      heard :
          (l : Result (Unit {0}))
          → let s =
              continue l
                (λ _ t. (Boot.start h.box cfg >>= λ _. pure (watched_units h c)) t)
                (record { disk = d; events = [] }) in
            Leaves s.0 s.1.events
      heard (err e) = none_created
      heard (ok u) =
          let s = Boot.start h.box cfg (record { disk = d; events = [] }) in
          renamed-Leaves s.0 s.1 (watched_units h c) (Outcome-Leaves (start-Outcome h.box cfg d))

  start-Leaves : (s : Assembly) → Leaves (start h c s).0 (start h c s).1.events
  unfolding start
  start-Leaves s = assembled (assemble h c s).0 (assemble h c s).1.disk
    where
      assembled :
          (r : Result BoxConfig) (d : Disk)
          → let x = continue r (boot h c) (record { disk = d; events = [] }) in
            Leaves x.0 x.1.events
      assembled (err e) d = none_created
      assembled (ok cfg) d = boot-Leaves cfg d

wait_and_close-Over :
    (ended : Result (Unit {0})) (w : World) (t : BoxHost)
    → ((answer : Result (Unit {0})) → Over (t.events ++ destroyed answer ∷ []))
    → Over (wait_and_close ended w t).1.events
unfolding wait_and_close close
wait_and_close-Over ended w t o = o w.destroy

then_wait-Over :
    (ended : Result (Unit {0})) (w : World) (x : Result (List Text) × BoxHost)
    → Leaves x.0 x.1.events
    → Over (then_wait ended w x).1.events
then_wait-Over ended w (err e, t) l = l
then_wait-Over ended w (ok units, t) l = wait_and_close-Over ended w t l

-- However the program ends, and whichever step of the start, call of libcontainer or wait fails: no
-- container was asked for, or its creation failed, or it was created and its process was run, and then
-- `Destroy` is called once, as the last call.
pub start_and_wait-Over :
    {K : Type 0} (h : LaunchHost K) (lookup : Text → Result OsUser) (uid : Text)
    (ended : Result (Unit {0})) (c : LaunchConfig) (s : Assembly)
    → Over (start_and_wait h lookup uid ended c s).1.events
unfolding start_and_wait
start_and_wait-Over h lookup uid ended c s = from (check_and_set_defaults lookup uid c)
  where
    from : (r : Result LaunchConfig) → Over (from_checked h ended s r).1.events
    from (err e) = none_created
    from (ok checked) = then_wait-Over ended h.box (start h checked s) (start-Leaves h checked s)
