-- ===== src/Tests/Boot.antt =====
-- A container with one mount whose process does not start.
use planet.Box.Boot.{World, start}
use planet.Box.Boot.Cleanup.{Outcome, start-Outcome}
use planet.Box.Container.{
  base_mounts, BoxConfig, ContainerConfig, assemble, get_libcontainer_config, cgroup_ns_enabled,
}
use planet.Box.Mounts.{Mount}
use planet.Box.Expansion.{expand, ContainerMount}
use planet.Box.Expansion.Laws.{expand_iff, IsMountable, all_mounts}
use planet.Trace.{system, not_found, err, ok, Result}
use planet.Os.{directory, calm, Disk, stat}
use planet.Box.Container.Mounting.{ForSelinux, ForCgroups, mounts_lem}
use planet.Base.{
  ◌≡◌, refl, ◌↔◌, Bool, true, false, some, List, [], ◌∷◌, ◌++◌, if◌then◌else◌, Text, codes, text_eq,
  All,
}

abbrev modules : Mount
modules = record {
  src = codes "/lib/modules";
  dst = codes "/lib/modules";
  readonly = true;
  skip_if_missing = false;
  recursive = false;
}

-- Only the directory itself is there.
abbrev glob : Text → Result (List Text)
glob p = if text_eq p (codes "/lib/modules") then ok (p ∷ []) else ok []

expand_example :
    (All (λ spec. IsMountable spec (glob spec.src)) (modules ∷ [])
      ↔ ((mounts : List ContainerMount) × (expand glob (modules ∷ []) ≡ ok mounts)))
    × ((mounts : List ContainerMount)
        → expand glob (modules ∷ []) ≡ ok mounts
        → mounts ≡ all_mounts glob (modules ∷ []))
expand_example = expand_iff glob (modules ∷ [])

abbrev world : World
world = record {
  parent = λ p. codes "/rootfs/etc";
  join_path = λ a b. a ++ b;
  absolute = λ p. ok p;
  is_executable = λ p. true;
  glob = glob;
  stat = λ p. err not_found;
  auto_created = [];
  host = record { hostname = ok (codes "node-1"); udev = ok []; loops = ok [] };
  container_id = codes "7";
  use_systemd = true;
  factory = ok tt;
  create = ok tt;
  run = err (system 5);
  status = ok tt;
  destroy = ok tt;
  close = ok tt;
}

abbrev config : BoxConfig
config = record {
  init_args = codes "/bin/systemd" ∷ [];
  init_env = [];
  init_user = [];
  env_files = [];
  files = [];
  rootfs = codes "/rootfs";
  mounts = modules ∷ [];
  devices = [];
  capabilities = [];
  data_dir = [];
  process_label = [];
  se_linux = false;
}

abbrev disk : Disk
disk = calm (λ q. some directory)

start-Outcome_example :
    Outcome
      (start world config (record { disk = disk; events = [] })).0
      (start world config (record { disk = disk; events = [] })).1.events
start-Outcome_example = start-Outcome world config disk

abbrev container : ContainerConfig
container =
    assemble [] (codes "7") config (codes "/rootfs") (codes "node-1") [] [] true
      (all_mounts glob (modules ∷ [])) []

made :
    (get_libcontainer_config glob
      (λ p. err not_found)
      []
      world.host
      (codes "7")
      (codes "/rootfs")
      config
      disk).0
    ≡ ok container
unfolding get_libcontainer_config cgroup_ns_enabled stat expand
made = refl

mounts_example :
    (enabled : Bool) × (extra : List ContainerMount) × (cgroups : ContainerMount)
    × ((cgroup_ns_enabled disk).0 ≡ ok enabled)
    × ForSelinux false extra
    × ForCgroups enabled cgroups container.namespaces
    × (container.mounts ≡ base_mounts ++ (extra ++ cgroups ∷ all_mounts glob (modules ∷ [])))
mounts_example =
    mounts_lem glob (λ p. err not_found) [] world.host (codes "7") (codes "/rootfs") config disk
      container made
