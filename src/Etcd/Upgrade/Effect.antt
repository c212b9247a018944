-- ===== src/Etcd/Upgrade/Effect.antt =====
-- What an upgrade does to the disk where no call fails.
use mathlib.Core.Path.{fun_ext}
use planet.Base.{
  ◌≡◌, refl, inl, inr, true, false, not, ◌&&◌, Option, none, some, [], ◌∷◌, ◌++◌, append_assoc,
  arith, if◌then◌else◌, Bool-cases, Text, codes, text_eq, text_eq_refl, is_empty,
}
use planet.Os.{file, mkdir_all, Node, calm, below}
use planet.Os.Laws.{removed, remove_all-calm, has_prefix-slash, text_eq-slash}
use planet.Strings.{has_prefix}
use planet.Etcd.Version.{
  dir, store_base, Versions, current_version_file, base_dir, assume_version, release_file,
}
use planet.Etcd.Version.RoundTrip.{environment_text, environment_nodes, write_environment-calm}
use planet.Trace.{ok}
use planet.Etcd.Upgrade.{move_to, member_dir}

file_name_slash :
    (v : Text) → below (codes "/ext/etcd/" ++ (v ++ codes "/member")) current_version_file ≡ false
unfolding text_eq has_prefix
file_name_slash v = rw (text_eq-slash v (codes "member") (codes "etcd-version.txt") (omega arith)) (
    rw append_assoc (has_prefix-slash v (codes "member/") (codes "etcd-version.txt") (omega arith)))

-- The version file does not lie in a data directory, whatever the version.
pub member_dir-version_file : (v : Text) → below (member_dir v) current_version_file ≡ false
unfolding base_dir text_eq has_prefix
member_dir-version_file [] = refl
member_dir-version_file (c ∷ v) = elim (Bool-cases (text_eq (c ∷ v) assume_version)) [
  | inl e ↦ rw e refl
  | inr e ↦ rw e (file_name_slash (c ∷ v))
]

pub moved : Text → Versions → (Text → Option Node) → Text → Option Node
moved desired vs nodes =
    if text_eq vs.current desired
    then removed (member_dir desired) nodes
    else (let written = environment_nodes current_version_file desired vs.current nodes in
        removed (member_dir desired)
          (if is_empty vs.prev then written else removed (member_dir vs.prev) written))

pub move_to-calm :
    (desired : Text) (vs : Versions) (nodes : Text → Option Node)
    → move_to desired vs (calm nodes) ≡ (ok tt, calm (moved desired vs nodes))
unfolding move_to moved
move_to-calm desired vs nodes = elim (Bool-cases (text_eq vs.current desired)) [
  | inl e ↦ rw e (remove_all-calm (member_dir desired) nodes)
  | inr e ↦ rw e (
      rw (write_environment-calm current_version_file desired vs.current nodes)
        (elim (Bool-cases (is_empty vs.prev)) [
          | inl f ↦ rw f (remove_all-calm (member_dir desired) _)
          | inr f ↦
              rw f (
                rw (remove_all-calm (member_dir vs.prev) _)
                  (remove_all-calm (member_dir desired) _))
        ]))
]

-- The release file lies in no data directory, and is not the version file.
pub member_dir-release_file : (v : Text) → below (member_dir v) release_file ≡ false
unfolding base_dir text_eq has_prefix
member_dir-release_file [] = refl
member_dir-release_file (c ∷ v) = elim (Bool-cases (text_eq (c ∷ v) assume_version)) [
  | inl e ↦ rw e refl
  | inr e ↦ rw e refl
]

-- The paths that an upgrade leaves alone. Without a backup only the data of the desired version is wiped.
abbrev pub IsUntouched : Text → Versions → Text → Type 0
IsUntouched desired vs q =
    (below (member_dir desired) q ≡ false)
    × (not (is_empty vs.prev) && below (member_dir vs.prev) q ≡ false)
    × (text_eq current_version_file q ≡ false)
    × (text_eq store_base q ≡ false)

pub environment_nodes-other :
    (version prev q : Text) (nodes : Text → Option Node)
    → text_eq current_version_file q ≡ false
    → text_eq store_base q ≡ false
    → environment_nodes current_version_file version prev nodes q ≡ nodes q
unfolding environment_nodes mkdir_all dir
environment_nodes-other version prev q nodes e f = ground arith

pub moved-IsUntouched :
    (desired q : Text) (vs : Versions) (nodes : Text → Option Node)
    → IsUntouched desired vs q
    → moved desired vs nodes q ≡ nodes q
unfolding moved
moved-IsUntouched desired q vs nodes h =
    ground (arith, environment_nodes-other desired vs.current q nodes h.2 h.3)

-- Nothing is left in the data directory of the desired version.
pub moved-wiped :
    (desired q : Text) (vs : Versions) (nodes : Text → Option Node)
    → below (member_dir desired) q ≡ true
    → moved desired vs nodes q ≡ none
unfolding moved
moved-wiped desired q vs nodes h = ground arith

-- The version file of a node that moves names the desired version, with the old one behind it.
pub moved-version_file :
    (desired : Text) (vs : Versions) (nodes : Text → Option Node)
    → text_eq vs.current desired ≡ false
    → moved desired vs nodes current_version_file
      ≡ some (file (environment_text desired vs.current))
unfolding moved environment_nodes
moved-version_file desired vs nodes h = ground (
  arith,
  member_dir-version_file desired,
  member_dir-version_file vs.prev,
  text_eq_refl current_version_file,
)

pub moved-release_file :
    (desired : Text) (vs : Versions) (nodes : Text → Option Node)
    → moved desired vs nodes release_file ≡ nodes release_file
unfolding text_eq
moved-release_file desired vs nodes =
    moved-IsUntouched desired release_file vs nodes
      (member_dir-release_file desired, ground (arith, member_dir-release_file vs.prev), refl, refl)

-- On a node that has the desired version already, a second move changes nothing more.
pub moved-moved :
    (desired : Text) (vs ws : Versions) (nodes : Text → Option Node)
    → text_eq ws.current desired ≡ true
    → moved desired ws (moved desired vs nodes) ≡ moved desired vs nodes
unfolding moved
moved-moved desired vs ws nodes h = fun_ext λ q. ground arith
