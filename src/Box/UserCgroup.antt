-- ===== src/Box/UserCgroup.antt =====
-- `setProcessUserCgroup` of lib/box/enter.go: the cgroup that a process of `enter` is moved to. The state of
-- the container, the cgroup library and `path.Clean` are arguments.
pub mod Below
use planet.Base.{ℕ, Option, none, some, List, [], ◌∷◌, ◌++◌, if◌then◌else◌, Text, codes, is_empty}
use planet.Strings.{split, join, has_prefix}
use planet.Trace.{Result, ok, err, not_found, bad_parameter, Exec, lift, ◌>>=◌, ◌>>◌}

-- `path.Join` and `filepath.Join`: empty parts at the begin are left out.
unfoldable pub join_path : (Text → Text) → List Text → Text
unfolding join
join_path clean [] = []
join_path clean (p ∷ ps) =
    let rest = join_path clean ps in if is_empty p then rest else clean (join (codes "/") (p ∷ ps))

-- `dirs[5:]` of a slice with at least six elements; `none` for a shorter one.
abbrev below_controller : List Text → Option (List Text)
below_controller (a ∷ b ∷ c ∷ d ∷ e ∷ f ∷ rest) = some (f ∷ rest)
below_controller _ = none

-- The path from there on, with the group of the user processes.
unfoldable pub group_below : (Text → Text) → List Text → Result Text
unfolding join_path
group_below clean dirs = elim (below_controller dirs) [
  | none ↦ err bad_parameter
  | some group ↦ ok (join_path clean (codes "/" ∷ join_path clean group ∷ codes "user" ∷ []))
]

-- The path of the group inside the hierarchy of a controller.
unfoldable pub user_path : (Text → Text) → Text → Result Text
unfolding has_prefix group_below
user_path clean cgroup =
    if has_prefix (codes "/sys/fs/cgroup/") cgroup
    then group_below clean (split b'/' cgroup)
    else err bad_parameter

-- What the process and the container answer, and the library for an existing group.
pub record CgroupAnswers : Type 0 where
  pub pid : Result ℕ
  -- The path of the `cpu` controller in the state of the container, if it has one.
  pub cpu_path : Result (Option Text)
  pub load : Text → Result (Unit {0})
  pub add : Text → ℕ → Result (Unit {0})

-- The groups and their processes, as they are added.
abbrev pub Placed : Type 0
Placed = List (Text × ℕ)

abbrev path_of : (Text → Text) → Option Text → Result Text
path_of clean none = err not_found
path_of clean (some p) = user_path clean p

abbrev place : CgroupAnswers → Text → ℕ → Exec Placed (Unit {0})
place a path pid placed = elim (a.add path pid) [
  | err e ↦ (err e, placed)
  | ok _ ↦ (ok tt, placed ++ (path, pid) ∷ [])
]

-- `setProcessUserCgroupImpl`
unfoldable pub set_process_user_cgroup : (Text → Text) → CgroupAnswers → Exec Placed (Unit {0})
unfolding user_path
set_process_user_cgroup clean a = do
  pid ← lift a.pid
  found ← lift a.cpu_path
  path ← lift (path_of clean found)
  lift (a.load path)
  place a path pid
