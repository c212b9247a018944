-- ===== src/Users/Creation.antt =====
-- `CheckUserGroup` of lib/check/user.go: the commands that create a group and a user where the user is
-- not there. What the two look-ups and the commands answer is outside.
use planet.Trace.{lift, system, err, ok, Result, Exec, Error, ◌>>◌}
use planet.Base.{◌≡◌, refl, Bool, true, false, List, [], ◌∷◌, ◌++◌, if◌then◌else◌, Text, codes}

-- The commands run so far, the last one last, and whether those to come fail; past the end of the
-- list they succeed.
pub record Shell : Type 0 where
  pub commands : List (List Text)
  pub failures : List Bool

abbrev head_failure : List Bool → Bool
head_failure [] = false
head_failure (f ∷ _) = f

abbrev other_failures : List Bool → List Bool
other_failures [] = []
other_failures (_ ∷ fs) = fs

unfoldable pub run : List Text → Exec Shell (Unit {0})
run command s = (
  if head_failure s.failures then err (system 1) else ok tt,
  record { commands = s.commands ++ command ∷ []; failures = other_failures s.failures },
)

abbrev pub group_add : Text → Text → List Text → List Text
group_add name gid extra =
    codes "/usr/sbin/groupadd"
    ∷ codes "--system"
    ∷ codes "--non-unique"
    ∷ codes "--gid"
    ∷ gid
    ∷ name
    ∷ extra

abbrev pub user_add : Text → Text → Text → List Text → List Text
user_add name uid gid extra =
    codes "/usr/sbin/useradd"
    ∷ codes "--system"
    ∷ codes "--no-create-home"
    ∷ codes "--non-unique"
    ∷ codes "--gid"
    ∷ gid
    ∷ codes "--uid"
    ∷ uid
    ∷ name
    ∷ extra

-- A command that fails is run again on the extra databases.
unfoldable pub run_or_extra : (List Text → List Text) → Exec Shell (Unit {0})
unfolding run
run_or_extra command s = elim (run (command []) s).0 [
  | ok _ ↦ (ok tt, (run (command []) s).1)
  | err _ ↦ run (command (codes "--extrausers" ∷ [])) (run (command []) s).1
]

-- `found` and `created` are the answers of `user.Lookup` before and after.
unfoldable pub check_user_group :
    {A : Type 0} → Result A → Result A → Text → Text → Text → Text → Exec Shell A
unfolding run_or_extra
check_user_group (ok u) created user group uid gid s = (ok u, s)
check_user_group (err _) created user group uid gid s =
    (do run_or_extra (group_add group gid); run_or_extra (user_add user uid gid); lift created) s

-- Where the user is missing and neither database takes the group, an error is reported and no user is
-- added: just the two attempts at the group were made.
pub check_user_group_failed :
    {A : Type 0}
    → (e : Error) (created : Result A) (user group uid gid : Text) (commands : List (List Text))
      (failures : List Bool)
    → check_user_group
        (err e)
        created
        user
        group
        uid
        gid
        (record { commands = commands; failures = true ∷ true ∷ failures })
      ≡ (
        err (system 1),
        record {
          commands =
              (commands ++ group_add group gid [] ∷ [])
              ++ group_add group gid (codes "--extrausers" ∷ []) ∷ [];
          failures = failures;
        },
      )
unfolding check_user_group
check_user_group_failed e created user group uid gid commands failures = refl
