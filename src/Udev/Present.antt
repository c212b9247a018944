-- ===== src/Udev/Present.antt =====
-- Which nodes the container has after a run of events.
use planet.Base.{
  ◌≡◌, refl, ap, ◌∙◌, ◌≢◌, Bool, true, false, Option, none, some, List, [], ◌∷◌, arith,
  if◌then◌else◌, Text, codes, text_eq, text_eq_iff, text_eq_refl,
}
use planet.Box.Devices.{Node}
use planet.Console.{with_environment}
use planet.Udev.{
  add_device, drop_device, run_command, enter_command, handle, loop, Made, DeviceHost, Calls, Wire,
  UdevEvent, DeviceCommand, device_cmd, mknod, chown, mknod_device, create_device_node,
  create_device, remove_node, remove_device, is_known,
}
use planet.Trace.{Result, ok}

abbrev pub is_there : Option Made → Bool
is_there none = false
is_there (some m) = true

-- Whether the last event of a path is its addition; without one, what was there before.
unfoldable pub present : List UdevEvent → Text → Bool → Bool
present [] p b = b
present (e ∷ es) p b = present es p (
    if text_eq e.devnode p
    then (if text_eq e.action (codes "add")
        then true
        else if text_eq e.action (codes "remove")
        then false
        else b)
    else b)

-- No system call fails.
pub record IsCalm (w : Calls) : Type 0 where
  pub mkdir_ok : (p : Text) → w.mkdir p ≡ ok tt
  pub mknod_ok : (p : Text) → w.mknod p ≡ ok tt
  pub chown_ok : (p : Text) → w.chown p ≡ ok tt
  pub remove_ok : (p : Text) → w.remove p ≡ ok tt

-- What the command line of a command reads as.
abbrev pub read_back : Wire → DeviceCommand → Result DeviceCommand
read_back l c = l.read_command (with_environment (device_cmd c)).args

-- A device that comes: the process is run, the device can be described and written, and its text and the
-- command line with it read as what they were made from.
pub record IsAdded (l : Wire) (e : UdevEvent) : Type 0 where
  pub action_of : e.action ≡ codes "add"
  pub entered_ok : e.entered ≡ ok tt
  pub node : Node
  pub text : Text
  pub found : e.from_path ≡ ok node
  pub encoded : l.marshal node ≡ ok text
  pub decoded : l.unmarshal text ≡ ok node
  pub command : read_back l (add_device text) ≡ ok (add_device text)
  pub path_of : node.path ≡ e.devnode
  pub type_of : is_known node.type ≡ true

-- A device that goes: the process is run, and the command line with its path is read back.
pub record IsDropped (l : Wire) (e : UdevEvent) : Type 0 where
  pub action_of : e.action ≡ codes "remove"
  pub entered_ok : e.entered ≡ ok tt
  pub command : read_back l (drop_device e.devnode) ≡ ok (drop_device e.devnode)

-- Events of any other kind are passed over.
pub record IsOther (e : UdevEvent) : Type 0 where
  pub not_add : e.action ≢ codes "add"
  pub not_remove : e.action ≢ codes "remove"

pub data AllAnswered (l : Wire) : List UdevEvent → Type 0 where
  none_left : AllAnswered l []
  comes :
      {e : UdevEvent} {es : List UdevEvent}
      → IsAdded l e
      → AllAnswered l es
      → AllAnswered l (e ∷ es)
  goes :
      {e : UdevEvent} {es : List UdevEvent}
      → IsDropped l e
      → AllAnswered l es
      → AllAnswered l (e ∷ es)
  passed :
      {e : UdevEvent} {es : List UdevEvent} → IsOther e → AllAnswered l es → AllAnswered l (e ∷ es)

module _ (w : Calls) (calm : IsCalm w) (s : DeviceHost) where
  create_device-there :
      (n : Node) (p : Text)
      → is_known n.type ≡ true
      → is_there ((create_device w n s).1.nodes p)
        ≡ (if text_eq n.path p then true else is_there (s.nodes p))
  unfolding create_device create_device_node mknod_device mknod chown
  create_device-there n p k = ground (
    arith,
    k,
    calm.mkdir_ok n.path,
    calm.mknod_ok n.path,
    calm.chown_ok n.path,
    text_eq_refl n.path,
    text_eq_iff n.path p,
  )

  remove_device-there :
      (q p : Text)
      → is_there ((remove_device w q s).1.nodes p)
        ≡ (if text_eq q p then false else is_there (s.nodes p))
  unfolding remove_device remove_node
  remove_device-there q p = ground (arith, calm.remove_ok q, text_eq_iff q p)

text_eq_of : (a b : Text) → a ≡ b → text_eq a b ≡ true
text_eq_of a b = (text_eq_iff a b).1

text_ne_of : (a b : Text) → a ≢ b → text_eq a b ≡ false
text_ne_of a b h = ground (arith, h, text_eq_iff a b)

no_add : (a : Text) → a ≡ codes "remove" → text_eq a (codes "add") ≡ false
unfolding text_eq
no_add a e = rw e refl

module _ (w : Calls) (calm : IsCalm w) (l : Wire) (s : DeviceHost) where
  added-there :
      (e : UdevEvent) (p : Text) (a : IsAdded l e)
      → is_there ((handle w l e s).1.nodes p) ≡ present (e ∷ []) p (is_there (s.nodes p))
  unfolding handle enter_command run_command present
  added-there e p a = ground (
    arith,
    text_eq_of e.action (codes "add") a.action_of,
    a.entered_ok,
    a.found,
    a.encoded,
    a.path_of,
    a.command,
    a.decoded,
    create_device-there w calm s a.node p a.type_of,
  )

  dropped-there :
      (e : UdevEvent) (p : Text) (a : IsDropped l e)
      → is_there ((handle w l e s).1.nodes p) ≡ present (e ∷ []) p (is_there (s.nodes p))
  unfolding handle enter_command run_command present
  dropped-there e p a = ground (
    arith,
    no_add e.action a.action_of,
    text_eq_of e.action (codes "remove") a.action_of,
    a.entered_ok,
    a.command,
    remove_device-there w calm s e.devnode p,
  )

  passed-there :
      (e : UdevEvent) (p : Text) (a : IsOther e)
      → is_there ((handle w l e s).1.nodes p) ≡ present (e ∷ []) p (is_there (s.nodes p))
  unfolding handle present
  passed-there e p a = ground (
    arith,
    text_ne_of e.action (codes "add") a.not_add,
    text_ne_of e.action (codes "remove") a.not_remove,
  )

-- Where no system call fails, a process can be run in the container, a device that comes can be described,
-- and the JSON and the command lines of these events are read as what they were made from: after a run of
-- events the container has a node at a path exactly when the last addition or removal of the path was an
-- addition, or there was none and the node was there before.
pub loop-present :
    (w : Calls) (l : Wire) (es : List UdevEvent) (s : DeviceHost) (p : Text)
    → IsCalm w
    → AllAnswered l es
    → is_there ((loop w l es s).nodes p) ≡ present es p (is_there (s.nodes p))
unfolding loop present
loop-present w l es s p calm all = from all s
  where
    from :
        {es : List UdevEvent}
        → AllAnswered l es
        → (s : DeviceHost)
        → is_there ((loop w l es s).nodes p) ≡ present es p (is_there (s.nodes p))
    from none_left s = refl
    from (comes {e} {es} a rest) s =
        from rest (handle w l e s).1 ∙ ap (present es p) (added-there w calm l s e p a)
    from (goes {e} {es} a rest) s =
        from rest (handle w l e s).1 ∙ ap (present es p) (dropped-there w calm l s e p a)
    from (passed {e} {es} a rest) s =
        from rest (handle w l e s).1 ∙ ap (present es p) (passed-there w calm l s e p a)
