-- ===== src/Users/Container.antt =====
-- The service user and its group in the files of the container: `LookupID`, `fromOSUser`, `Group` and
-- `fromOSGroup` of lib/user/user.go, and `addUserToContainer` and `addGroupToContainer` of
-- tool/planet/start.go. What the host's databases and runc's parsers answer is an argument.
pub mod Again
pub mod Interrupted
use planet.Base.{
  ℕ, not, ◌||◌, Option, none, some, List, [], ◌∷◌, ◌++◌, map, leb, ◌==◌, if◌then◌else◌, Text, codes,
  is_empty,
}
use planet.Strings.Atoi.{all_digits, max_int}
use planet.Strings.Decimal.{value_from, itoa}
use planet.Trace.{Result, ok, err, system, Error, Exec, lift, ◌>>=◌, ◌>>◌}
use planet.Os.{
  Disk, Fault, file, head_fault, tail_faults, open_file, read, truncate, update, contents,
}
use planet.Users.{
  User, Group, user_text, group_text, upsert_user, upsert_group, write_lines, LineBuffer, error_of,
}

-- `os/user.User` and `os/user.Group` as far as they are read.
pub record OsUser : Type 0 where
  pub uid : Text
  pub gid : Text
  pub username : Text
  pub name : Text
  pub home_dir : Text

pub record OsGroup : Type 0 where
  pub gid : Text
  pub name : Text

unsigned : Text → Text
unsigned [] = []
unsigned (c ∷ cs) = if c == b'+' then cs else c ∷ cs

-- `strconv.Atoi` with its error; an id is no negative number.
unfoldable pub read_id : Text → Result ℕ
unfolding unsigned all_digits value_from
read_id s =
    let digits = unsigned s in
    let n = value_from 0 digits in
    if is_empty digits || not (all_digits digits) || not (leb n max_int)
    then err (system 0)
    else ok n

abbrev pass_placeholder : Text
pass_placeholder = codes "x"

with_ids : OsUser → Result ℕ → Result ℕ → Result User
with_ids u (err e) g = err e
with_ids u (ok uid) (err e) = err e
with_ids u (ok uid) (ok gid) = ok (record {
  name = u.username;
  pass = pass_placeholder;
  uid = uid;
  gid = gid;
  gecos = u.name;
  home = u.home_dir;
  shell = [];
})

unfoldable pub from_os_user : OsUser → Result User
unfolding read_id with_ids
from_os_user u = with_ids u (read_id u.uid) (read_id u.gid)

unfoldable pub from_os_group : OsGroup → Result Group
unfolding read_id
from_os_group g = elim (read_id g.gid) [
  | err e ↦ err e
  | ok gid ↦ ok (record { name = g.name; pass = pass_placeholder; gid = gid; members = [] })
]

-- `LookupID`, where the host's database answers.
unfoldable pub lookup_id : (Text → Result OsUser) → Text → Result User
unfolding from_os_user
lookup_id lookup uid = elim (lookup uid) [ err e ↦ err e | ok u ↦ from_os_user u ]

-- `User.Group`
unfoldable pub group_of : (Text → Result OsGroup) → User → Result Group
unfolding from_os_group itoa
group_of lookup u = elim (lookup (itoa u.gid)) [ err e ↦ err e | ok g ↦ from_os_group g ]

abbrev pub flushed : LineBuffer → Result (Unit {0}) × List (Option Fault)
flushed b = elim b.error [
  | some e ↦ (err e, b.faults)
  | none ↦ (
    elim (error_of (head_fault b.faults)) [ some e ↦ err e | none ↦ ok tt ],
    tail_faults b.faults,
  )
]

-- `WriteTo` on an open file.
unfoldable pub write_lines_to : Text → List Text → Exec Disk (Unit {0})
unfolding write_lines
write_lines_to p lines d =
    let (n, b) = write_lines 0 lines (record { text = []; error = none; faults = d.faults }) in
    (
      (flushed b).0,
      record {
        nodes = update d.nodes p (some (file (contents (d.nodes p) ++ b.text)));
        faults = (flushed b).1;
      },
    )

-- What a parser makes of a reader that failed is an error.
unfoldable pub read_all : Text → Text × Option Error → Result Text
read_all t (s, none) = ok s
read_all t (s, some e) = err e

-- A database is read, changed, truncated and written.
module _ {A : Type 0} (text_of : A → Text) (parse : Text → Result (List A)) where
  unfoldable pub rewrite_database : Text → (List A → List A) → Exec Disk (Unit {0})
  rewrite_database path change = do
    t ← open_file path
    got ← read t
    s ← lift (read_all t got)
    entries ← lift (parse s)
    truncate path
    write_lines_to path (map text_of (change entries))

abbrev pub users_database : Text
users_database = codes "/etc/passwd"

abbrev pub groups_database : Text
groups_database = codes "/etc/group"

-- The name of the service user and of its group inside the container.
abbrev pub service_user : Text
service_user = codes "planet"

abbrev pub service_group : Text
service_group = codes "planet"

abbrev pub as_service_user : User → User
as_service_user u = record u { name = service_user }

abbrev pub as_service_group : Group → Group
as_service_group g = record g { name = service_group }

unfoldable pub add_user_to_container :
    (Text → Result (List User)) → Text → User → Exec Disk (Unit {0})
unfolding upsert_user
add_user_to_container parse rootfs u =
    rewrite_database user_text parse (rootfs ++ users_database) (upsert_user (as_service_user u))

-- `u.Group()` is asked for behind the reading of the file, where its error changes nothing yet.
unfoldable pub add_group_to_container :
    (Text → Result (List Group)) → Result Group → Text → Exec Disk (Unit {0})
unfolding upsert_group
add_group_to_container parse group rootfs = do
  t ← open_file (rootfs ++ groups_database)
  got ← read t
  s ← lift (read_all t got)
  entries ← lift (parse s)
  g ← lift group
  truncate (rootfs ++ groups_database)
  write_lines_to (rootfs ++ groups_database)
      (map group_text (upsert_group (as_service_group g) entries))
