-- ===== src/Box/Container.antt =====
-- `getLibcontainerConfig` of lib/box/srv.go: the configuration of the container. The fields whose types
-- are libcontainer's are kept as far as the program sets them.
pub mod Mounting
use planet.Trace.{pure, is_not_found, lift, attempt, err, ok, Exec, Result, ◌>>=◌, ◌>>◌}
use planet.Box.Devices.{Device, Node, loop_devices, all_devices, UdevDevice, disks, Status}
use planet.Env.{EnvVars}
use planet.Box.Expansion.{
  read_only, strict_atime, no_dev, no_suid, relatime, private, bind, no_exec, Flag, expand,
  ContainerMount,
}
use planet.Os.{Disk, stat}
use planet.Box.Files.{File}
use planet.Box.Mounts.{Mounts}
use planet.Base.{ℕ, Bool, true, false, List, [], ◌∷◌, ◌++◌, if◌then◌else◌, Text, codes}

abbrev default_flags : List Flag
default_flags = no_exec ∷ no_suid ∷ no_dev ∷ []

abbrev fixed_mount : Text → Text → Text → List Flag → Text → ContainerMount
fixed_mount source destination device flags data_ = record {
  source = source;
  destination = destination;
  device = device;
  data_ = data_;
  flags = flags;
  shared = false;
}

abbrev pub base_mounts : List ContainerMount
base_mounts =
    fixed_mount (codes "proc") (codes "/proc") (codes "proc") default_flags []
    ∷ fixed_mount (codes "/lib/modules") (codes "/lib/modules") (codes "bind")
        (default_flags ++ bind ∷ []) []
    ∷ fixed_mount (codes "tmpfs") (codes "/dev") (codes "tmpfs") (no_suid ∷ strict_atime ∷ [])
        (codes "mode=755")
    ∷ fixed_mount (codes "sysfs") (codes "/sys") (codes "sysfs") default_flags []
    ∷ fixed_mount (codes "devpts") (codes "/dev/pts") (codes "devpts") (no_suid ∷ no_exec ∷ [])
        (codes "newinstance,ptmxmode=0666,mode=0620,gid=5")
    ∷ fixed_mount (codes "shm") (codes "/dev/shm") (codes "tmpfs") default_flags
        (codes "mode=1777,size=65536k")
    ∷ fixed_mount (codes "/dev/disk") (codes "/dev/disk") (codes "bind") (bind ∷ []) []
    ∷ fixed_mount (codes "/dev/kmsg") (codes "/dev/kmsg") (codes "bind") (bind ∷ read_only ∷ []) []
    ∷ fixed_mount (codes "tmpfs") (codes "/run") (codes "tmpfs") default_flags []
    ∷ fixed_mount (codes "tmpfs") (codes "/run/lock") (codes "tmpfs") default_flags []
    ∷ fixed_mount (codes "tmpfs") (codes "/run") (codes "tmpfs") (no_suid ∷ no_dev ∷ [])
        (codes "mode=755")
    ∷ fixed_mount (codes "/run/udev") (codes "/run/udev") (codes "bind") (bind ∷ []) []
    ∷ []

abbrev pub selinux_mounts : List ContainerMount
selinux_mounts =
    fixed_mount (codes "/sys/fs/selinux") (codes "/sys/fs/selinux") (codes "bind")
      (bind ∷ relatime ∷ []) []
    ∷ fixed_mount (codes "/etc/selinux") (codes "/etc/selinux") (codes "bind")
        (default_flags ++ bind ∷ read_only ∷ []) []
    ∷ []

-- With a namespace of its own for cgroups, or without.
unfoldable pub cgroup_mount : Bool → ContainerMount
cgroup_mount true =
    fixed_mount (codes "cgroup") (codes "/sys/fs/cgroup") (codes "cgroup") (private ∷ []) []
cgroup_mount false =
    fixed_mount (codes "/sys/fs/cgroup") (codes "/sys/fs/cgroup") (codes "bind")
      (private ∷ bind ∷ []) []

pub data Namespace : Type 0 where
  new_ns new_uts new_ipc new_pid new_cgroup : Namespace

-- What the host answers: its name, its udev devices and its loop devices.
pub record Answers : Type 0 where
  pub hostname : Result Text
  pub udev : Result (List UdevDevice)
  pub loops : Result (List Text)

-- `CgroupNSEnabled` of lib/box/util.go
abbrev is_there : Result (Unit {0}) → Result Bool
is_there (ok _) = ok true
is_there (err e) = if is_not_found e then ok false else err e

unfoldable pub cgroup_ns_enabled : Exec Disk Bool
unfolding stat
cgroup_ns_enabled = do found ← attempt (stat (codes "/proc/self/ns/cgroup")); lift (is_there found)

-- `Config` of lib/box/cfg.go, less the logger.
pub record BoxConfig : Type 0 where
  pub init_args : List Text
  pub init_env : List Text
  pub init_user : Text
  pub env_files : List (Text × EnvVars)
  pub files : List File
  pub rootfs : Text
  pub mounts : Mounts
  pub devices : List Device
  pub capabilities : List Text
  pub data_dir : Text
  pub process_label : Text
  pub se_linux : Bool

-- `configs.Config` of libcontainer. All five sets of capabilities are the one of the configuration.
pub record ContainerConfig : Type 0 where
  pub rootfs : Text
  pub capabilities : List Text
  pub namespaces : List Namespace
  pub mounts : List ContainerMount
  pub cgroup_name : Text
  pub cpu_shares : ℕ
  pub pids_unlimited : Bool
  pub devices : List Node
  pub hostname : Text
  pub mount_label : Text
  pub process_label : Text

unfoldable pub container_mounts : Bool → Bool → List ContainerMount → List ContainerMount
unfolding cgroup_mount
container_mounts se_linux cgroups_enabled configured =
    base_mounts
    ++ ((if se_linux then selinux_mounts else []) ++ (cgroup_mount cgroups_enabled ∷ configured))

unfoldable pub container_namespaces : Bool → List Namespace
container_namespaces cgroups_enabled =
    new_ns ∷ new_uts ∷ new_ipc ∷ new_pid ∷ (if cgroups_enabled then new_cgroup ∷ [] else [])

-- `auto_created` stands for `configs.DefaultAutoCreatedDevices`.
unfoldable pub assemble :
    List Node
    → Text
    → BoxConfig
    → Text
    → Text
    → List UdevDevice
    → List Text
    → Bool
    → List ContainerMount
    → List Node
    → ContainerConfig
unfolding disks loop_devices container_mounts container_namespaces
assemble auto_created container_id cfg rootfs hostname udev loops cgroups_enabled configured
      converted =
    record {
      rootfs = rootfs;
      capabilities = cfg.capabilities;
      namespaces = container_namespaces cgroups_enabled;
      mounts = container_mounts cfg.se_linux cgroups_enabled configured;
      cgroup_name = codes "planet-" ++ container_id;
      cpu_shares = 2;
      pids_unlimited = true;
      devices = auto_created ++ (loop_devices 0 loops ++ disks udev) ++ converted;
      hostname = hostname;
      mount_label =
          if cfg.se_linux then codes "system_u:object_r:gravity_container_file_t:s0" else [];
      process_label = if cfg.se_linux then cfg.process_label else [];
    }

unfoldable pub get_libcontainer_config :
    (Text → Result (List Text))
    → (Text → Result Status)
    → List Node
    → Answers
    → Text
    → Text
    → BoxConfig
    → Exec Disk ContainerConfig
unfolding expand all_devices
get_libcontainer_config glob stat auto_created answers container_id rootfs cfg = do
  hostname ← lift answers.hostname
  udev ← lift answers.udev
  loops ← lift answers.loops
  cgroups_enabled ← cgroup_ns_enabled
  configured ← lift (expand glob cfg.mounts)
  converted ← lift (all_devices glob stat cfg.devices)
  pure (
      assemble auto_created container_id cfg rootfs hostname udev loops cgroups_enabled configured
        converted)
