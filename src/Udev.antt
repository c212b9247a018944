-- ===== src/Udev.antt =====
-- Devices of the host that come and go: the loop of tool/planet/udev.go, which runs a command in the
-- container for each event, and tool/planet/devices.go, which the command runs there. What udev and the
-- kernel answer, the library for JSON and the reading of the command line are arguments.
pub mod Creation
pub mod Present
use planet.Base.{
  ℕ, Bool, false, ◌||◌, Option, none, some, List, [], ◌∷◌, ◌==◌, if◌then◌else◌, Text, codes,
  text_eq,
}
use planet.Box.Devices.{Node}
use planet.Box.Enter.{ProcessConfig}
use planet.Console.{with_environment}
use planet.Trace.{
  Result, ok, err, already_exists, not_found, system, Exec, pure, raise, lift, attempt, ◌>>=◌, ◌>>◌,
}

-- A device node of the container.
pub record Made : Type 0 where
  pub type : ℕ
  pub major : ℕ
  pub minor : ℕ
  pub mode : ℕ
  pub uid : ℕ
  pub gid : ℕ

pub record DeviceHost : Type 0 where
  pub umask : ℕ
  pub nodes : Text → Option Made

-- What the system calls answer for a path, where the nodes do not decide it. `mask` is what the mask of
-- the process leaves of a mode.
pub record Calls : Type 0 where
  pub mkdir : Text → Result (Unit {0})
  pub mknod : Text → Result (Unit {0})
  pub chown : Text → Result (Unit {0})
  pub remove : Text → Result (Unit {0})
  pub mask : ℕ → ℕ → ℕ

abbrev pub put_node : (Text → Option Made) → Text → Option Made → Text → Option Made
put_node nodes p m q = if text_eq p q then m else nodes q

abbrev pub made : ℕ → Node → Made
made mode n = record {
  type = n.type;
  major = n.major;
  minor = n.minor;
  mode = mode;
  uid = 0;
  gid = 0;
}

abbrev pub owned : Node → Made → Made
owned n m = record m { uid = n.uid; gid = n.gid }

-- The system call, which refuses a path that exists.
unfoldable pub mknod : Calls → Node → Exec DeviceHost (Unit {0})
mknod w n s = elim (s.nodes n.path) [
  | some _ ↦ (err already_exists, s)
  | none ↦ elim (w.mknod n.path) [
    | err e ↦ (err e, s)
    | ok _ ↦ (
      ok tt,
      record s { nodes = put_node s.nodes n.path (some (made (w.mask s.umask n.file_mode) n)) },
    )
  ]
]

unfoldable pub chown : Calls → Node → Exec DeviceHost (Unit {0})
chown w n s = elim (s.nodes n.path) [
  | none ↦ (err not_found, s)
  | some m ↦ elim (w.chown n.path) [
    | err e ↦ (err e, s)
    | ok _ ↦ (ok tt, record s { nodes = put_node s.nodes n.path (some (owned n m)) })
  ]
]

abbrev pub unless_exists : Result (Unit {0}) → Result (Unit {0})
unless_exists (err already_exists) = ok tt
unless_exists r = r

abbrev pub unless_missing : Result (Unit {0}) → Result (Unit {0})
unless_missing (err not_found) = ok tt
unless_missing r = r

-- The types of nodes that can be made.
abbrev pub is_known : ℕ → Bool
is_known t = t == b'c' || t == b'b'

unfoldable pub mknod_device : Calls → Node → Exec DeviceHost (Unit {0})
unfolding mknod chown
mknod_device w n =
    if is_known n.type
    then (do r ← attempt (mknod w n); lift (unless_exists r); chown w n)
    else raise (system 0)

unfoldable pub create_device_node : Calls → Node → Exec DeviceHost (Unit {0})
unfolding mknod_device
create_device_node w n = do
  lift (w.mkdir n.path)
  r ← attempt (mknod_device w n)
  lift (unless_exists r)

-- `createDevice`: the mask of the process is cleared, and set again on every way out.
unfoldable pub create_device : Calls → Node → Exec DeviceHost (Unit {0})
unfolding create_device_node
create_device w n s =
    let (r, t) = create_device_node w n (record s { umask = 0 }) in
    (r, record t { umask = s.umask })

-- `os.Remove`
unfoldable pub remove_node : Calls → Text → Exec DeviceHost (Unit {0})
remove_node w p s = elim (s.nodes p) [
  | none ↦ (err not_found, s)
  | some _ ↦ elim (w.remove p) [
    | err e ↦ (err e, s)
    | ok _ ↦ (ok tt, record s { nodes = put_node s.nodes p none })
  ]
]

unfoldable pub remove_device : Calls → Text → Exec DeviceHost (Unit {0})
unfolding remove_node
remove_device w p = do r ← attempt (remove_node w p); lift (unless_missing r)

-- The commands `device add` and `device remove` of the program.
pub data DeviceCommand : Type 0 where
  add_device drop_device : Text → DeviceCommand

-- The arguments that `createDevice` and `removeDevice` of the listener give.
abbrev pub arguments : DeviceCommand → List Text
arguments (add_device t) = codes "add" ∷ codes "--data" ∷ t ∷ []
arguments (drop_device t) = codes "remove" ∷ codes "--node" ∷ t ∷ []

-- `deviceCmd`
unfoldable pub device_cmd : DeviceCommand → ProcessConfig
device_cmd c = record {
  has_tty = false;
  args = codes "/usr/bin/planet" ∷ codes "--debug" ∷ codes "device" ∷ arguments c;
  user = codes "root";
  env = [];
  process_label = codes "system_u:system_r:gravity_container_runtime_t:s0";
}

-- The libraries: JSON, and the reading of the command line.
pub record Wire : Type 0 where
  pub marshal : Node → Result Text
  pub unmarshal : Text → Result Node
  pub read_command : List Text → Result DeviceCommand

-- An event of udev, with what `DeviceFromPath` finds and whether a process can be run in the container.
pub record UdevEvent : Type 0 where
  pub action : Text
  pub devnode : Text
  pub from_path : Result Node
  pub entered : Result (Unit {0})

module _ (w : Calls) (l : Wire) where
  -- The program inside the container.
  unfoldable pub run_command : DeviceCommand → Exec DeviceHost (Unit {0})
  unfolding create_device remove_device
  run_command (add_device t) = do n ← lift (l.unmarshal t); create_device w n
  run_command (drop_device p) = remove_device w p

  -- `enter` with the configuration of a command.
  unfoldable pub enter_command : Result (Unit {0}) → DeviceCommand → Exec DeviceHost (Unit {0})
  unfolding run_command device_cmd
  enter_command entered c = do
    lift entered
    read ← lift (l.read_command (with_environment (device_cmd c)).args)
    run_command read

  unfoldable pub handle : UdevEvent → Exec DeviceHost (Unit {0})
  unfolding enter_command
  handle e =
      if text_eq e.action (codes "add")
      then (do n ← lift e.from_path; t ← lift (l.marshal n); enter_command e.entered (add_device t))
      else if text_eq e.action (codes "remove")
      then enter_command e.entered (drop_device e.devnode)
      else pure tt

  -- `loop`: errors are logged.
  unfoldable pub loop : List UdevEvent → DeviceHost → DeviceHost
  unfolding handle
  loop [] s = s
  loop (e ∷ es) s = loop es (handle e s).1
