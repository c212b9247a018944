-- ===== src/Box/Expansion.antt =====
-- `getLibcontainerConfig` of lib/box/srv.go: how the mounts of the configuration become mounts of the
-- container. `glob` stands for Go's `filepath.Glob`. A word of flag bits is the list of its flags.
pub mod Laws
use planet.Trace.{not_found, ok, err, Result}
use planet.Box.Mounts.{Mounts, Mount}
use planet.Base.{Bool, true, not, List, [], ◌∷◌, ◌++◌, map, if◌then◌else◌, Text, codes, text_eq}

pub data Flag : Type 0 where
  read_only no_suid no_dev no_exec bind recursive private relatime strict_atime : Flag

pub record ContainerMount : Type 0 where
  pub source : Text
  pub destination : Text
  pub device : Text
  pub data_ : Text
  pub flags : List Flag
  -- Whether the only propagation flag, `MS_SHARED`, is set.
  pub shared : Bool

-- For a pattern that is no path itself the target is the source.
unfoldable pub target : Mount → Text → Text
unfolding text_eq
target spec match = if not (text_eq match spec.src) then match else spec.dst

unfoldable pub mount_flags : Mount → List Flag
mount_flags spec =
    bind ∷ (if spec.readonly then read_only ∷ [] else [])
    ++ (if spec.recursive then Flag.recursive ∷ [] else [])

unfoldable pub mount_match : Mount → Text → ContainerMount
unfolding target mount_flags
mount_match spec match = record {
  source = match;
  destination = target spec match;
  device = codes "bind";
  data_ = [];
  flags = mount_flags spec;
  shared = true;
}

-- A source that is not there is an error unless it may be missing.
unfoldable pub expand_one : Mount → Result (List Text) → Result (List ContainerMount)
unfolding mount_match
expand_one spec (err e) = err e
expand_one spec (ok []) = if not spec.skip_if_missing then err not_found else ok []
expand_one spec (ok (m ∷ ms)) = ok (map (mount_match spec) (m ∷ ms))

abbrev pub followed :
    List ContainerMount → Result (List ContainerMount) → Result (List ContainerMount)
followed some_mounts (err e) = err e
followed some_mounts (ok others) = ok (some_mounts ++ others)

unfoldable pub expand : (Text → Result (List Text)) → Mounts → Result (List ContainerMount)
unfolding expand_one
expand glob [] = ok []
expand glob (spec ∷ specs) = elim (expand_one spec (glob spec.src)) [
  | err e ↦ err e
  | ok mounts ↦ followed mounts (expand glob specs)
]
