-- ===== src/Users.antt =====
-- lib/user/user.go: the databases of users and groups of the container. User and group ids are natural
-- numbers. How the file is parsed (`ParsePasswd` and `ParseGroup` of runc) is outside.
pub mod Upsert
pub mod Writing
pub mod Creation
pub mod Container
use planet.Base.{
  ℕ, ◌+◌, Option, none, some, List, [], ◌∷◌, ◌++◌, map, if◌then◌else◌, Text, codes, text_eq, length,
}
use planet.Strings.{take, join}
use planet.Strings.Decimal.{itoa}
use planet.Trace.{Error}
use planet.Os.{Fault, head_fault, tail_faults}

pub record User : Type 0 where
  pub name : Text
  pub pass : Text
  pub uid : ℕ
  pub gid : ℕ
  pub gecos : Text
  pub home : Text
  pub shell : Text

pub record Group : Type 0 where
  pub name : Text
  pub pass : Text
  pub gid : ℕ
  pub members : List Text

abbrev colon : Text
colon = codes ":"

unfoldable pub user_text : User → Text
unfolding join itoa
user_text u =
    join colon (u.name ∷ u.pass ∷ itoa u.uid ∷ itoa u.gid ∷ u.gecos ∷ u.home ∷ u.shell ∷ [])

unfoldable pub group_text : Group → Text
unfolding join itoa
group_text g = join colon (g.name ∷ g.pass ∷ itoa g.gid ∷ join (codes ",") g.members ∷ [])

-- The loop of both `Upsert`s: the first entry of that name is replaced, or the new one stands last.
module _ {A : Type 0} (name_of : A → Text) where
  unfoldable pub upsert_named : A → List A → List A
  upsert_named u [] = u ∷ []
  upsert_named u (x ∷ xs) =
      if text_eq (name_of x) (name_of u) then u ∷ xs else x ∷ upsert_named u xs

unfoldable pub upsert_user : User → List User → List User
unfolding upsert_named
upsert_user = upsert_named (λ u. u.name)

unfoldable pub upsert_group : Group → List Group → List Group
unfolding upsert_named
upsert_group = upsert_named (λ g. g.name)

-- `textLineBuffer`: what was written, the first error, and the faults of the writes to come.
pub record LineBuffer : Type 0 where
  pub text : Text
  pub error : Option Error
  pub faults : List (Option Fault)

abbrev pub cut_write : Option Fault → Text → Text
cut_write none t = t
cut_write (some f) t = take f.done t

abbrev pub error_of : Option Fault → Option Error
error_of none = none
error_of (some f) = some f.error

-- `WriteLine`: nothing is written after an error.
unfoldable pub write_line : Text → LineBuffer → ℕ × LineBuffer
write_line s b = elim b.error [
  | some _ ↦ (0, b)
  | none ↦
      let written = cut_write (head_fault b.faults) (s ++ codes "\n") in
      (
        length written,
        record {
          text = b.text ++ written;
          error = error_of (head_fault b.faults);
          faults = tail_faults b.faults;
        },
      )
]

-- The loop of `WriteTo` over the lines, with the count of bytes so far.
unfoldable pub write_lines : ℕ → List Text → LineBuffer → ℕ × LineBuffer
unfolding write_line
write_lines n [] b = (n, b)
write_lines n (l ∷ ls) b = let (k, b') = write_line l b in write_lines (n + k) ls b'

-- The count, the error if there was one, and what was written. The flush takes the next fault.
unfoldable pub write_to : List Text → List (Option Fault) → ℕ × Option Error × Text
unfolding write_lines
write_to lines faults =
    let (n, b) = write_lines 0 lines (record { text = []; error = none; faults = faults }) in
    elim b.error [
      | some e ↦ (n, some e, b.text)
      | none ↦ (n, error_of (head_fault b.faults), b.text)
    ]

unfoldable pub write_users : List User → List (Option Fault) → ℕ × Option Error × Text
unfolding write_to
write_users users = write_to (map user_text users)

unfoldable pub write_groups : List Group → List (Option Fault) → ℕ × Option Error × Text
unfolding write_to
write_groups groups = write_to (map group_text groups)
