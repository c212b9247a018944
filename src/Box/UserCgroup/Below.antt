-- ===== src/Box/UserCgroup/Below.antt =====
-- Where a process of `enter` goes.
use planet.Base.{◌≡◌, refl, true, false, ◌++◌, Text, codes, is_empty}
use planet.Strings.{pieces, has_prefix}

-- The path of a group below a controller: the directory of the system, the controller and the path.
abbrev pub group_path : Text → Text → Text
group_path controller group = codes "/sys/fs/cgroup/" ++ (controller ++ (codes "/" ++ group))

has_prefix-group_path :
    (t : Text) → has_prefix (codes "/sys/fs/cgroup/") (codes "/sys/fs/cgroup/" ++ t) ≡ true
unfolding has_prefix
has_prefix-group_path t = refl

-- What `path.Clean` makes of the paths here: a group that is clean stays, and a doubled slash goes.
pub record IsCleaned (clean : Text → Text) (group : Text) : Type 0 where
  pub stays : clean group ≡ group
  pub rooted :
      clean (codes "//" ++ (group ++ codes "/user")) ≡ codes "/" ++ (group ++ codes "/user")
  -- It does not begin with a slash.
  pub relative : is_empty (pieces b'/' group).0 ≡ false

-- The group of the user processes.
abbrev pub user_group : Text → Text
user_group group = codes "/" ++ (group ++ codes "/user")
