-- ===== src/Tests/Users.antt =====
-- A database of users in which the service user is there already, and a writer that is full.
use planet.Users.{user_text, upsert_user, User, group_text, write_to}
use planet.Users.Container.{add_user_to_container, as_service_user, users_database}
use planet.Users.Container.Interrupted.{add_user_interrupted, Rewritten}
use planet.Os.{file, Node, Fault}
use planet.Trace.{Result, ok, system}
use planet.Users.Writing.{lines_text}
use planet.Base.{
  ◌≡◌, refl, false, Option, none, some, List, [], ◌∷◌, map, if◌then◌else◌, Text, codes, text_eq,
}

abbrev root_user : User
root_user = record {
  name = codes "root";
  pass = codes "x";
  uid = 0;
  gid = 0;
  gecos = [];
  home = codes "/root";
  shell = codes "/bin/sh";
}

abbrev planet_user : User
planet_user = record root_user { name = codes "planet"; uid = 1000; gid = 1000 }

group_line :
    group_text (record {
      name = codes "adm";
      pass = codes "x";
      gid = 42;
      members = codes "a" ∷ codes "b" ∷ [];
    })
    ≡ codes "adm:x:42:a,b"
unfolding group_text
group_line = refl

abbrev two_lines : List Text
two_lines = codes "one" ∷ codes "two" ∷ []

write_to_succeeds : (write_to two_lines []).1 ≡ none
unfolding write_to
write_to_succeeds = refl

abbrev passwd : Text
passwd = codes "root:x:0:0::/root:/bin/sh\n"

-- A parser that knows the two texts.
abbrev parse_users : Text → Result (List User)
parse_users t =
    if text_eq t passwd
    then ok (root_user ∷ [])
    else ok (root_user ∷ as_service_user planet_user ∷ [])

abbrev one_file : Text → Option Node
one_file p = if text_eq p users_database then some (file passwd) else none

passwd_there : one_file users_database ≡ some (file passwd)
unfolding text_eq
passwd_there = refl

passwd_parsed : parse_users passwd ≡ ok (root_user ∷ [])
unfolding text_eq
passwd_parsed = refl

passwd_back :
    parse_users
      (lines_text (map user_text (upsert_user (as_service_user planet_user) (root_user ∷ []))))
    ≡ ok (upsert_user (as_service_user planet_user) (root_user ∷ []))
unfolding text_eq upsert_user user_text lines_text
passwd_back = refl

abbrev full_disk : List (Option Fault)
full_disk =
    none ∷ none ∷ none ∷ some (record { error = system 28; done = 3; kept = λ q. false }) ∷ []

add_user_interrupted_example :
    Rewritten users_database one_file
      (lines_text (map user_text (upsert_user (as_service_user planet_user) (root_user ∷ []))))
      (add_user_to_container parse_users [] planet_user
        (record { nodes = one_file; faults = full_disk }))
add_user_interrupted_example =
    add_user_interrupted parse_users [] passwd one_file planet_user (root_user ∷ []) full_disk
      passwd_there passwd_parsed
