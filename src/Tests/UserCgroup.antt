-- ===== src/Tests/UserCgroup.antt =====
-- A shell in a container whose group is `a/b` of the controller `cpu`.
use planet.Base.{◌≡◌, refl, ◌&&◌, some, [], ◌∷◌, ◌==◌, if◌then◌else◌, Text, codes}
use planet.Box.UserCgroup.{
  join_path, CgroupAnswers, set_process_user_cgroup, user_path, group_below,
}
use planet.Strings.{join, pieces, has_prefix}
use planet.Trace.{ok, err, bad_parameter}

-- The doubled slash at the begin goes.
abbrev clean : Text → Text
clean [] = []
clean (c ∷ []) = c ∷ []
clean (c ∷ d ∷ t) = if c == b'/' && d == b'/' then d ∷ t else c ∷ d ∷ t

abbrev answers : CgroupAnswers
answers = record {
  pid = ok 42;
  cpu_path = ok (some (codes "/sys/fs/cgroup/c/a/b"));
  load = λ p. ok tt;
  add = λ p n. ok tt;
}

shell_placed : set_process_user_cgroup clean answers [] ≡ (ok tt, (codes "/a/b/user", 42) ∷ [])
unfolding set_process_user_cgroup user_path group_below join_path has_prefix pieces join
shell_placed = refl

-- The group of the root has no path below a controller.
root_refused : user_path clean (codes "/sys/fs/cgroup/cpu") ≡ err bad_parameter
unfolding user_path group_below has_prefix pieces
root_refused = refl

abbrev group : Text
group = codes "a/b"
