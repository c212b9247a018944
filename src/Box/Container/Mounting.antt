-- ===== src/Box/Container/Mounting.antt =====
-- The mounts of the container's configuration.
use planet.Box.Devices.{all_devices, Status}
use planet.Box.Expansion.{expand, ContainerMount}
use planet.Box.Container.{
  Namespace, new_ns, new_uts, new_ipc, new_pid, new_cgroup, base_mounts, selinux_mounts,
  cgroup_mount, assemble, container_namespaces, container_mounts, cgroup_ns_enabled,
  ContainerConfig, BoxConfig, Answers, Node, get_libcontainer_config,
}
use planet.Trace.{ok_inj, then_ok, ok, Result}
use planet.Os.{Disk}
use planet.Box.Expansion.Laws.{expand_iff, all_mounts}
use mathlib.Core.Path.{subst}
use planet.Base.{
  ◌≡◌, refl, sym, ap, ◌∙◌, ◌⊎◌, inl, inr, Bool, true, false, List, [], ◌∷◌, ◌++◌, map, Text, codes,
}

-- The two directories of SELinux where it is on, and nothing where it is off.
abbrev pub ForSelinux : Bool → List ContainerMount → Type 0
ForSelinux se_linux mounts =
    ((se_linux ≡ true)
      × (map (λ m. m.destination) mounts ≡ codes "/sys/fs/selinux" ∷ codes "/etc/selinux" ∷ []))
    ⊎ ((se_linux ≡ false) × (mounts ≡ []))

-- With a namespace of its own the container mounts its cgroups afresh, without one those of the host.
abbrev pub ForCgroups : Bool → ContainerMount → List Namespace → Type 0
ForCgroups enabled m namespaces =
    (m.destination ≡ codes "/sys/fs/cgroup")
    × (((enabled ≡ true)
          × (m.device ≡ codes "cgroup")
          × (namespaces ≡ new_ns ∷ new_uts ∷ new_ipc ∷ new_pid ∷ new_cgroup ∷ []))
        ⊎ ((enabled ≡ false)
            × (m.device ≡ codes "bind")
            × (m.source ≡ codes "/sys/fs/cgroup")
            × (namespaces ≡ new_ns ∷ new_uts ∷ new_ipc ∷ new_pid ∷ [])))

container_mounts-parts :
    (se_linux enabled : Bool) (configured : List ContainerMount)
    → (extra : List ContainerMount) × (cgroups : ContainerMount) × ForSelinux se_linux extra
      × ForCgroups enabled cgroups (container_namespaces enabled)
      × (container_mounts se_linux enabled configured
          ≡ base_mounts ++ (extra ++ cgroups ∷ configured))
unfolding container_mounts container_namespaces cgroup_mount
container_mounts-parts true true configured =
    (selinux_mounts, cgroup_mount true, inl (refl, refl), (refl, inl (refl, refl, refl)), refl)
container_mounts-parts true false configured = (
  selinux_mounts,
  cgroup_mount false,
  inl (refl, refl),
  (refl, inr (refl, refl, refl, refl)),
  refl,
)
container_mounts-parts false true configured =
    ([], cgroup_mount true, inr (refl, refl), (refl, inl (refl, refl, refl)), refl)
container_mounts-parts false false configured =
    ([], cgroup_mount false, inr (refl, refl), (refl, inr (refl, refl, refl, refl)), refl)

-- What a configuration with these mounts and namespaces has.
abbrev Mounted : Bool → Result Bool → List ContainerMount → ContainerConfig → Type 0
Mounted se_linux probe configured c =
    (enabled : Bool) × (extra : List ContainerMount) × (cgroups : ContainerMount) × (probe
      ≡ ok enabled)
    × ForSelinux se_linux extra
    × ForCgroups enabled cgroups c.namespaces
    × (c.mounts ≡ base_mounts ++ (extra ++ cgroups ∷ configured))

mounted :
    (se_linux enabled : Bool) (probe : Result Bool) (given configured : List ContainerMount)
    (c : ContainerConfig)
    → probe ≡ ok enabled
    → c.mounts ≡ container_mounts se_linux enabled given
    → c.namespaces ≡ container_namespaces enabled
    → given ≡ configured
    → Mounted se_linux probe configured c
mounted se_linux enabled probe given configured c e m n g =
    let (extra, cgroups, selinux, own, parts) =
      container_mounts-parts se_linux enabled configured in
    (
      enabled,
      extra,
      cgroups,
      e,
      selinux,
      subst (ForCgroups enabled cgroups) (sym n) own,
      m ∙ ap (container_mounts se_linux enabled) g ∙ parts,
    )

-- A configuration that is made mounts what the program always mounts, the two directories of SELinux just
-- where it is on, the cgroups, and then every match of every configured source. The cgroups are a mount of
-- their own in a namespace of their own just where the kernel has such namespaces, and the host's
-- otherwise.
pub mounts_lem :
    (glob : Text → Result (List Text)) (stat : Text → Result Status) (auto_created : List Node)
    (answers : Answers) (id rootfs : Text) (cfg : BoxConfig) (d : Disk) (c : ContainerConfig)
    → (get_libcontainer_config glob stat auto_created answers id rootfs cfg d).0 ≡ ok c
    → (enabled : Bool) × (extra : List ContainerMount) × (cgroups : ContainerMount)
      × ((cgroup_ns_enabled d).0 ≡ ok enabled)
      × ForSelinux cfg.se_linux extra
      × ForCgroups enabled cgroups c.namespaces
      × (c.mounts ≡ base_mounts ++ (extra ++ cgroups ∷ all_mounts glob cfg.mounts))
unfolding get_libcontainer_config assemble
mounts_lem glob stat auto_created answers id rootfs cfg d c h =
    let (name, _, h1) = then_ok answers.hostname _ d c h in
    let (udev, _, h2) = then_ok answers.udev _ d c h1 in
    let (loops, _, h3) = then_ok answers.loops _ d c h2 in
    let (enabled, e, h4) = then_ok (cgroup_ns_enabled d).0 _ (cgroup_ns_enabled d).1 c h3 in
    let (mounts, m, h5) = then_ok (expand glob cfg.mounts) _ (cgroup_ns_enabled d).1 c h4 in
    let (converted, _, h6) =
      then_ok (all_devices glob stat cfg.devices) _ (cgroup_ns_enabled d).1 c h5 in
    let made = sym (ok_inj _ c h6) in
    mounted cfg.se_linux enabled (cgroup_ns_enabled d).0 mounts (all_mounts glob cfg.mounts) c e
      (ap (λ x. x.mounts) made) (ap (λ x. x.namespaces) made)
      ((expand_iff glob cfg.mounts).1 mounts m)
