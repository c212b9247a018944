-- ===== src/Tests/Udev.antt =====
-- A disk that is added to the container and one that is added and removed, and a console.
use planet.Env.{upsert, get, has, EnvVars}
use planet.Env.Names.{IsUnique}
use planet.Console.{console_process, ConsoleConfig, enter_console, with_environment}
use planet.Box.Enter.{inherit}
use planet.Console.Variables.{console_environment, own_value}
use planet.Base.{
  zero, suc, ◌≡◌, refl, ◌≢◌, ◌⊎◌, true, false, ◌&&◌, none, some, List, [], ◌∷◌, if◌then◌else◌, Text,
  codes, text_eq, is_empty,
}
use planet.Box.Devices.{Node}
use planet.Trace.{Result, ok, err, not_found}
use planet.Udev.{
  loop, device_cmd, UdevEvent, DeviceHost, Calls, Wire, DeviceCommand, add_device, drop_device,
  create_device, create_device_node, mknod_device, mknod, chown,
}
use planet.Udev.Creation.{IsKernel, create_device_lem, node_of_device}
use planet.Udev.Present.{
  IsAdded, IsDropped, comes, goes, none_left, loop-present, is_there, present, IsCalm,
}

abbrev calls : Calls
calls = record {
  mkdir = λ p. ok tt;
  mknod = λ p. ok tt;
  chown = λ p. ok tt;
  remove = λ p. ok tt;
  mask = λ u m. elim u [ zero ↦ m | suc k ↦ 0 ];
}

abbrev disk : Text → Node
disk p = record {
  type = b'b';
  path = p;
  major = 8;
  minor = 16;
  permissions = codes "rwm";
  file_mode = 432;
  uid = 0;
  gid = 6;
}

abbrev container : DeviceHost
container = record { umask = 18; nodes = λ p. none }

calls-IsKernel : IsKernel calls
calls-IsKernel = record { chown_error = λ p e. cc; mask_none = λ m. refl }

calls-IsCalm : IsCalm calls
calls-IsCalm = record {
  mkdir_ok = λ p. refl;
  mknod_ok = λ p. refl;
  chown_ok = λ p. refl;
  remove_ok = λ p. refl;
}

create_device_lem_example :
    ((create_device calls (disk (codes "/dev/sdb")) container).1.umask ≡ 18)
    × ((if text_eq (codes "/dev/sdb") (codes "/dev/sda")
          then none
          else (create_device calls (disk (codes "/dev/sdb")) container).1.nodes (codes "/dev/sda"))
        ≡ none)
    × (((create_device calls (disk (codes "/dev/sdb")) container).0 ≢ ok tt)
        ⊎ ((create_device calls (disk (codes "/dev/sdb")) container).1.nodes (codes "/dev/sdb")
            ≡ some (node_of_device (disk (codes "/dev/sdb")))))
create_device_lem_example =
    create_device_lem calls (disk (codes "/dev/sdb")) container (codes "/dev/sda") calls-IsKernel
      refl

disk_made :
    (create_device calls (disk (codes "/dev/sdb")) container).1.nodes (codes "/dev/sdb")
    ≡ some (record { type = b'b'; major = 8; minor = 16; mode = 432; uid = 0; gid = 6 })
unfolding create_device create_device_node mknod_device mknod chown text_eq
disk_made = refl

-- A library that writes the path of a disk, and a reader of the two commands.
abbrev read_command : List Text → Result DeviceCommand
read_command (p ∷ d ∷ c ∷ k ∷ f ∷ t ∷ []) =
    if text_eq k (codes "add") then ok (add_device t) else ok (drop_device t)
read_command args = err not_found

abbrev wire : Wire
wire = record {
  marshal = λ n. ok n.path;
  unmarshal = λ t. ok (disk t);
  read_command = read_command;
}

abbrev event : Text → Text → Result Node → UdevEvent
event action p node = record { action = action; devnode = p; from_path = node; entered = ok tt }

abbrev added : Text → UdevEvent
added p = event (codes "add") p (ok (disk p))

-- The device is gone and cannot be described.
abbrev gone : Text → UdevEvent
gone p = event (codes "remove") p (err not_found)

added-IsAdded : (p : Text) → IsAdded wire (added p)
unfolding with_environment device_cmd text_eq
added-IsAdded p = record {
  action_of = refl;
  entered_ok = refl;
  node = disk p;
  text = p;
  found = refl;
  encoded = refl;
  decoded = refl;
  command = refl;
  path_of = refl;
  type_of = refl;
}

gone-IsDropped : (p : Text) → IsDropped wire (gone p)
unfolding with_environment device_cmd text_eq
gone-IsDropped p = record { action_of = refl; entered_ok = refl; command = refl }

abbrev events : List UdevEvent
events = added (codes "/dev/sdb") ∷ added (codes "/dev/sdc") ∷ gone (codes "/dev/sdb") ∷ []

loop-present_example :
    is_there ((loop calls wire events container).nodes (codes "/dev/sdb"))
    ≡ present events (codes "/dev/sdb") false
loop-present_example = loop-present calls wire events container (codes "/dev/sdb") calls-IsCalm (
    comes (added-IsAdded (codes "/dev/sdb")) (
      comes (added-IsAdded (codes "/dev/sdc"))
        (goes (gone-IsDropped (codes "/dev/sdb")) none_left)))

last_events :
    (present events (codes "/dev/sdb") false ≡ false)
    × (present events (codes "/dev/sdc") false ≡ true)
unfolding present text_eq
last_events = (refl, refl)

abbrev console : ConsoleConfig
console = record { cmd = codes "bash"; user = codes "admin"; tty = true; args = [] }

abbrev file_env : EnvVars
file_env =
    record { name = codes "PATH"; val = codes "/bin" }
    ∷ record { name = codes "ROLE"; val = codes "node" }
    ∷ []

-- The console finds the program's path, and the role of the file.
console_variables :
    (get (inherit (with_environment (console_process console)).env file_env) (codes "PATH")
      ≡ own_value (codes "PATH"))
    × (get (inherit (with_environment (console_process console)).env file_env) (codes "ROLE")
        ≡ codes "node")
unfolding with_environment inherit get upsert own_value text_eq
console_variables = (refl, refl)

abbrev console_size : Result (Unit {0})
console_size = ok tt

console_starts :
    enter_console console_size console ≡ ok (with_environment (console_process console))
unfolding enter_console
console_starts = refl

file_env-IsUnique : IsUnique file_env
unfolding has text_eq
file_env-IsUnique = (refl, (refl, tt))

console_environment_example :
    get (inherit (with_environment (console_process console)).env file_env) (codes "PATH") ≡ (
      if is_empty (own_value (codes "PATH")) && has file_env (codes "PATH")
      then get file_env (codes "PATH")
      else own_value (codes "PATH"))
console_environment_example =
    console_environment console_size console (with_environment (console_process console)) file_env
      (codes "PATH") console_starts file_env-IsUnique
