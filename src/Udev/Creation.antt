-- ===== src/Udev/Creation.antt =====
-- What `createDevice` leaves.
use planet.Base.{
  ℕ, ◌≡◌, refl, sym, ◌∙◌, ◌≢◌, ◌⊎◌, inl, inr, false, none, some, arith, if◌then◌else◌, Bool-cases,
  Text, text_eq, text_eq_refl,
}
use planet.Box.Devices.{Node}
use planet.Udev.{
  create_device_node, create_device, Made, DeviceHost, Calls, made, owned, mknod, chown,
  mknod_device,
}
use planet.Trace.{Result, ok, err, already_exists}

-- The node of a device as it was described.
abbrev pub node_of_device : Node → Made
node_of_device n = owned n (made n.file_mode n)

-- The kernel's owner change has no error that tells of an existing file, and an empty mask leaves a mode
-- as it is.
pub record IsKernel (w : Calls) : Type 0 where
  pub chown_error : (p : Text) → w.chown p ≢ err already_exists
  pub mask_none : (m : ℕ) → w.mask 0 m ≡ m

module _ (w : Calls) (n : Node) (s : DeviceHost) where
  mknod-elsewhere : (p : Text) → text_eq n.path p ≡ false → (mknod w n s).1.nodes p ≡ s.nodes p
  unfolding mknod
  mknod-elsewhere p h = ground (arith, h)

  chown-elsewhere : (p : Text) → text_eq n.path p ≡ false → (chown w n s).1.nodes p ≡ s.nodes p
  unfolding chown
  chown-elsewhere p h = ground (arith, h)

module _ (w : Calls) (n : Node) (s : DeviceHost) where
  mknod_device-elsewhere :
      (p : Text) → text_eq n.path p ≡ false → (mknod_device w n s).1.nodes p ≡ s.nodes p
  unfolding mknod_device
  mknod_device-elsewhere p h =
      let between = (mknod w n s).1 in
      ground (arith, mknod-elsewhere w n s p h, chown-elsewhere w n between p h)

  mknod_device-fresh :
      IsKernel w
      → s.umask ≡ 0
      → s.nodes n.path ≡ none
      → (mknod_device w n s).0 ≡ ok tt
      → (mknod_device w n s).1.nodes n.path ≡ some (node_of_device n)
  unfolding mknod_device mknod chown
  mknod_device-fresh k u e h = ground (arith, u, e, h, text_eq_refl n.path, k.mask_none n.file_mode)

  mknod_device-refused : IsKernel w → (mknod_device w n s).0 ≢ err already_exists
  unfolding mknod_device chown
  mknod_device-refused k h = ground (arith, h, k.chown_error n.path)

module _ (w : Calls) (n : Node) (s : DeviceHost) where
  create_device_node-elsewhere :
      (p : Text) → text_eq n.path p ≡ false → (create_device_node w n s).1.nodes p ≡ s.nodes p
  unfolding create_device_node
  create_device_node-elsewhere p h = ground (arith, mknod_device-elsewhere w n s p h)

  create_device_node-fresh :
      IsKernel w
      → s.umask ≡ 0
      → s.nodes n.path ≡ none
      → (create_device_node w n s).0 ≡ ok tt
      → (create_device_node w n s).1.nodes n.path ≡ some (node_of_device n)
  unfolding create_device_node
  create_device_node-fresh k u e h =
      let refused = mknod_device-refused w n s k in
      ground (arith, h, refused, mknod_device-fresh w n s k u e)

-- On a path that is free, whichever calls fail: `createDevice` leaves the mask of the process and every
-- other node as they were, and it fails, or the node is the described device with exactly its mode and its
-- owners, whatever the mask was.
pub create_device_lem :
    (w : Calls) (n : Node) (s : DeviceHost) (p : Text)
    → IsKernel w
    → s.nodes n.path ≡ none
    → ((create_device w n s).1.umask ≡ s.umask)
      × ((if text_eq n.path p then s.nodes p else (create_device w n s).1.nodes p) ≡ s.nodes p)
      × (((create_device w n s).0 ≢ ok tt)
          ⊎ ((create_device w n s).1.nodes n.path ≡ some (node_of_device n)))
unfolding create_device
create_device_lem w n s p k free =
    let cleared : DeviceHost = record s { umask = 0 } in
    (
      refl,
      elim (Bool-cases (text_eq n.path p)) [
        | inl e ↦ ground (arith, e)
        | inr e ↦ ground (arith, e, create_device_node-elsewhere w n cleared p e)
      ],
      outcome (create_device_node w n cleared).0 refl,
    )
  where
    outcome :
        (r : Result (Unit {0}))
        → (create_device_node w n (record s { umask = 0 })).0 ≡ r
        → ((create_device w n s).0 ≢ ok tt)
          ⊎ ((create_device w n s).1.nodes n.path ≡ some (node_of_device n))
    outcome (ok u) e = inr (create_device_node-fresh w n (record s { umask = 0 }) k refl free e)
    outcome (err x) e = inl (λ z. cc (sym e ∙ z))
