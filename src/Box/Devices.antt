-- ===== src/Box/Devices.antt =====
-- lib/box/srv.go: the device nodes of the container. `glob` stands for `filepath.Glob` and `stat` for the
-- system call.
pub mod Numbers
use planet.Trace.{bad_parameter, ok, err, Result}
use planet.Strings.Decimal.{itoa}
use planet.Base.{ℕ, suc, ◌/◌, ◌%◌, ◌||◌, List, [], ◌∷◌, ◌++◌, if◌then◌else◌, Text, codes, text_eq}

-- `Device` of lib/box/cfg.go.
pub record Device : Type 0 where
  pub path : Text
  pub permissions : Text
  pub file_mode : ℕ
  pub uid : ℕ
  pub gid : ℕ

pub data Kind : Type 0 where
  block char other_kind : Kind

pub record Status : Type 0 where
  pub kind : Kind
  pub rdev : ℕ

-- `configs.Device` of libcontainer, as far as the program sets it.
pub record Node : Type 0 where
  pub type : ℕ
  pub path : Text
  pub major : ℕ
  pub minor : ℕ
  pub permissions : Text
  pub file_mode : ℕ
  pub uid : ℕ
  pub gid : ℕ

abbrev pub node_of : Text → ℕ → ℕ → Node
node_of path type rdev = record {
  type = type;
  path = path;
  major = rdev / 256;
  minor = rdev % 256;
  permissions = [];
  file_mode = 0;
  uid = 0;
  gid = 0;
}

abbrev pub of_kind : Text → ℕ → Kind → Result Node
of_kind path rdev block = ok (node_of path b'b' rdev)
of_kind path rdev char = ok (node_of path b'c' rdev)
of_kind path rdev other_kind = err bad_parameter

unfoldable pub get_device_info : (Text → Result Status) → Text → Result Node
get_device_info stat path = elim (stat path) [ err e ↦ err e | ok s ↦ of_kind path s.rdev s.kind ]

-- The fields that come from the command line.
abbrev pub filled : Device → Node → Node
filled device node = record node {
  permissions = device.permissions;
  file_mode = device.file_mode;
  uid = device.uid;
  gid = device.gid;
}

abbrev pub cons_filled : Device → Node → Result (List Node) → Result (List Node)
cons_filled device node (err e) = err e
cons_filled device node (ok nodes) = ok (filled device node ∷ nodes)

unfoldable pub paths_to_devices : (Text → Result Status) → Device → List Text → Result (List Node)
unfolding get_device_info
paths_to_devices stat device [] = ok []
paths_to_devices stat device (p ∷ ps) = elim (get_device_info stat p) [
  | err e ↦ err e
  | ok node ↦ cons_filled device node (paths_to_devices stat device ps)
]

unfoldable pub convert_to_devices :
    (Text → Result (List Text)) → (Text → Result Status) → Device → Result (List Node)
unfolding paths_to_devices
convert_to_devices glob stat device = elim (glob device.path) [
  | err e ↦ err e
  | ok paths ↦ paths_to_devices stat device paths
]

abbrev pub joined : List Node → Result (List Node) → Result (List Node)
joined nodes (err e) = err e
joined nodes (ok others) = ok (nodes ++ others)

-- The loop over the devices of the configuration.
unfoldable pub all_devices :
    (Text → Result (List Text)) → (Text → Result Status) → List Device → Result (List Node)
unfolding convert_to_devices
all_devices glob stat [] = ok []
all_devices glob stat (d ∷ ds) = elim (convert_to_devices glob stat d) [
  | err e ↦ err e
  | ok nodes ↦ joined nodes (all_devices glob stat ds)
]

-- `/dev/loop<i>` for each loop device that the host has, with the index as its name and number.
unfoldable pub loop_devices : ℕ → List Text → List Node
unfolding itoa
loop_devices i [] = []
loop_devices i (_ ∷ rest) =
    record {
      type = b'b';
      path = codes "/dev/loop" ++ itoa i;
      major = 7;
      minor = i;
      permissions = codes "rwm";
      file_mode = 432;
      uid = 0;
      gid = 0;
    }
    ∷ loop_devices (suc i) rest

-- A device as udev lists it.
pub record UdevDevice : Type 0 where
  pub dev_type : Text
  pub dev_node : Text
  pub major : ℕ
  pub minor : ℕ

unfoldable pub disks : List UdevDevice → List Node
unfolding text_eq
disks [] = []
disks (d ∷ ds) =
    let rest = disks ds in
    if text_eq d.dev_type (codes "disk") || text_eq d.dev_type (codes "partition")
    then record {
      type = b'b';
      path = d.dev_node;
      major = d.major;
      minor = d.minor;
      permissions = codes "rwm";
      file_mode = 432;
      uid = 0;
      gid = 0;
    }
      ∷ rest
    else rest
