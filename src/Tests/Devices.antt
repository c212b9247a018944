-- ===== src/Tests/Devices.antt =====
-- A device of the command line, and a block device of the host.
use planet.Box.Devices.{Device, Status, Node, paths_to_devices, block}
use planet.Box.Devices.Numbers.{paths_to_devices-AllFor, AllFor}
use planet.Box.DeviceFlags.{parse_device, format}
use planet.Box.DeviceFlags.RoundTrip.{parse_device-format, IsPrintable}
use planet.Trace.{ok, Result}
use planet.Base.{◌≡◌, refl, List, [], ◌∷◌, arith, Text, codes}

abbrev disk_device : Device
disk_device = record {
  path = codes "/dev/sd*";
  permissions = codes "rwm";
  file_mode = 438;
  uid = 1000;
  gid = 0;
}

disk_device-IsPrintable : IsPrintable disk_device
disk_device-IsPrintable = record {
  path_parts = omega arith;
  path_equals = omega arith;
  permissions_parts = omega arith;
  permissions_equals = omega arith;
  mode_fits = omega arith;
  uid_fits = omega arith;
  gid_fits = omega arith;
}

parse_device-format_example : parse_device (format disk_device) ≡ ok disk_device
parse_device-format_example = parse_device-format disk_device disk_device-IsPrintable

abbrev stat : Text → Result Status
stat p = ok (record { kind = block; rdev = 2065 })

abbrev paths : List Text
paths = codes "/dev/sdb1" ∷ []

abbrev nodes : List Node
nodes =
    (record {
      type = b'b';
      path = codes "/dev/sdb1";
      major = 8;
      minor = 17;
      permissions = codes "rwm";
      file_mode = 438;
      uid = 1000;
      gid = 0;
    })
    ∷ []

made : paths_to_devices stat disk_device paths ≡ ok nodes
unfolding paths_to_devices
made = refl

paths_to_devices_example : AllFor stat disk_device nodes paths
paths_to_devices_example = paths_to_devices-AllFor stat disk_device paths nodes made
