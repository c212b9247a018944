-- ===== src/Box/Devices/Numbers.antt =====
-- Which device nodes the container gets for a device of the configuration.
use mathlib.Core.Path.{subst}
use planet.Trace.{ok_inj, Result, ok, err}
use planet.Box.Devices.{
  get_device_info, cons_filled, filled, char, block, of_kind, Node, Kind, Device, Status,
  paths_to_devices,
}
use planet.Base.{ℕ, ◌+◌, ◌*◌, ◌<◌, ◌≡◌, refl, ◌⊎◌, inl, inr, List, [], ◌∷◌, arith, Text}

-- A node stands for a device of the host: block or character, the numbers those of the status, and the
-- permissions, mode and owners those that are configured.
pub record IsFor (stat : Text → Result Status) (device : Device) (node : Node) (path : Text)
    : Type 0 where
  pub status : Status
  pub answered : stat path ≡ ok status
  pub same_path : node.path ≡ path
  pub type_of_kind :
      ((status.kind ≡ block) × (node.type ≡ b'b')) ⊎ ((status.kind ≡ char) × (node.type ≡ b'c'))
  pub numbers : node.major * 256 + node.minor ≡ status.rdev
  pub minor_fits : node.minor < 256
  pub configured :
      (node.permissions ≡ device.permissions)
      × (node.file_mode ≡ device.file_mode)
      × (node.uid ≡ device.uid)
      × (node.gid ≡ device.gid)

abbrev pub AllFor : (Text → Result Status) → Device → List Node → List Text → Type 0
AllFor stat device [] [] = Unit
AllFor stat device (n ∷ ns) (p ∷ ps) = IsFor stat device n p × AllFor stat device ns ps
AllFor stat device _ _ = ⊥

of_kind-IsFor :
    (stat : Text → Result Status) (device : Device) (p : Text) (rdev : ℕ) (k : Kind) (node : Node)
    → stat p ≡ ok (record { kind = k; rdev = rdev })
    → of_kind p rdev k ≡ ok node
    → IsFor stat device (filled device node) p
of_kind-IsFor stat device p rdev block node e h =
    subst (λ n. IsFor stat device (filled device n) p) (ok_inj _ node h)
      (record {
        status = record { kind = block; rdev = rdev };
        answered = e;
        same_path = refl;
        type_of_kind = inl (refl, refl);
        numbers = omega arith;
        minor_fits = omega arith;
        configured = (refl, refl, refl, refl);
      })
of_kind-IsFor stat device p rdev char node e h =
    subst (λ n. IsFor stat device (filled device n) p) (ok_inj _ node h)
      (record {
        status = record { kind = char; rdev = rdev };
        answered = e;
        same_path = refl;
        type_of_kind = inr (refl, refl);
        numbers = omega arith;
        minor_fits = omega arith;
        configured = (refl, refl, refl, refl);
      })
of_kind-IsFor stat device p rdev Kind.other_kind node e h = absurd (cc h)

info_IsFor :
    (stat : Text → Result Status) (device : Device) (p : Text) (r : Result Status) (node : Node)
    → stat p ≡ r
    → elim r [ err e ↦ err e | ok s ↦ of_kind p s.rdev s.kind ] ≡ ok node
    → IsFor stat device (filled device node) p
info_IsFor stat device p (ok s) node e h = of_kind-IsFor stat device p s.rdev s.kind node e h
info_IsFor stat device p (err x) node e h = absurd (cc h)

cons_filled_ok :
    (device : Device) (node : Node) (r : Result (List Node)) (nodes : List Node)
    → cons_filled device node r ≡ ok nodes
    → (rest : List Node) × (r ≡ ok rest) × (filled device node ∷ rest ≡ nodes)
cons_filled_ok device node (ok rest) nodes h = (rest, refl, ok_inj _ nodes h)
cons_filled_ok device node (err e) nodes h = absurd (cc h)

paths_step :
    (device : Device) (r : Result Node) (more : Result (List Node)) (nodes : List Node)
    → elim r [ err e ↦ err e | ok node ↦ cons_filled device node more ] ≡ ok nodes
    → (node : Node) × (r ≡ ok node)
      × ((rest : List Node) × (more ≡ ok rest) × (filled device node ∷ rest ≡ nodes))
paths_step device (ok node) more nodes h = (node, refl, cons_filled_ok device node more nodes h)
paths_step device (err e) more nodes h = absurd (cc h)

-- Where the nodes can be made, there is one for each path in turn: of the path's kind, with numbers that
-- make up the device number that the host reports, the minor one below 256, and with the configured
-- permissions, mode and owners.
pub paths_to_devices-AllFor :
    (stat : Text → Result Status) (device : Device) (paths : List Text) (nodes : List Node)
    → paths_to_devices stat device paths ≡ ok nodes
    → AllFor stat device nodes paths
unfolding paths_to_devices get_device_info
paths_to_devices-AllFor stat device [] nodes h =
    subst (λ l. AllFor stat device l []) (ok_inj [] nodes h) tt
paths_to_devices-AllFor stat device (p ∷ ps) nodes h =
    let (node, e, (rest, k, same)) =
      paths_step device (get_device_info stat p) (paths_to_devices stat device ps) nodes h in
    subst (λ l. AllFor stat device l (p ∷ ps)) same
      (info_IsFor stat device p (stat p) node refl e, paths_to_devices-AllFor stat device ps rest k)
