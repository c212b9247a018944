-- ===== src/Box/CgroupMounts/Presence.antt =====
-- What is mounted when the cgroups are.
use planet.Trace.{ok, Exec, ◌>>◌, pure, continue, continue_ok, err, Result}
use planet.Check.Filesystems.{Mounted, lookup}
use planet.Strings.{has_text, split}
use planet.Box.CgroupMounts.{
  when_required, check_for_conflicts, required_set, parse_host_cgroups, mount_cgroups, all_found,
  mount_unless_there, link_group, Target, mount_groups, mount_group, MountHost, mount, on_disk,
}
use planet.Os.{mkdir_all, symlink, Disk}
use mathlib.Core.Path.{subst}
use planet.Base.{
  ◌≡◌, refl, sym, ap, ◌∙◌, inl, inr, Bool, true, false, not, ◌||◌, List, [], ◌∷◌, arith,
  if◌then◌else◌, Bool-cases, Text, text_eq_refl, is_empty, All,
}

-- A target stands in the table of mounts, or has been mounted.
abbrev pub IsThere : List Mounted → MountHost → Text → Type 0
IsThere mounts h target = not (is_empty (lookup mounts target)) || has_text target h.mounted ≡ true

-- A step after which what was mounted still is.
abbrev Keeps : Exec MountHost (Unit {0}) → Type 0
Keeps m =
    (h : MountHost) (t : Text) → has_text t h.mounted ≡ true → has_text t (m h).1.mounted ≡ true

mount-Keeps : (target : Text) → Keeps (mount target)
unfolding mount has_text
mount-Keeps target h t k = ground arith

mount-there :
    (target : Text) (h : MountHost)
    → (mount target h).0 ≡ ok tt
    → has_text target (mount target h).1.mounted ≡ true
unfolding mount has_text
mount-there target h e = ground (arith, text_eq_refl target)

continued-Keeps :
    (r : Result (Unit {0})) (n : Exec MountHost (Unit {0})) (s : MountHost) (t : Text)
    → Keeps n
    → has_text t s.mounted ≡ true
    → has_text t (continue r (λ _. n) s).1.mounted ≡ true
continued-Keeps (ok _) n s t b k = b s t k
continued-Keeps (err e) n s t b k = k

Keeps-then : (m n : Exec MountHost (Unit {0})) → Keeps m → Keeps n → Keeps (m >> n)
Keeps-then m n a b h t k = continued-Keeps (m h).0 n (m h).1 t b (a h t k)

Keeps-on_disk : (m : Exec Disk (Unit {0})) → Keeps (on_disk m)
Keeps-on_disk m h t k = k

Keeps-mount_unless_there :
    (mounts : List Mounted) (target : Text) → Keeps (mount_unless_there mounts target)
unfolding mount_unless_there
Keeps-mount_unless_there mounts target h t k = elim (Bool-cases (is_empty (lookup mounts target))) [
  | inl e ↦ rw e (
      Keeps-then (on_disk (mkdir_all target)) (mount target) (Keeps-on_disk (mkdir_all target))
        (mount-Keeps target) h t k)
  | inr e ↦ rw e k
]

Keeps-link_group : (other path : Text) → Keeps (link_group other path)
unfolding link_group symlink
Keeps-link_group other path h t k = k

Keeps-mount_group :
    (at : Text → Text) (found : List Text) (mounts : List Mounted) (g : Text × Target)
    → Keeps (mount_group at found mounts g)
unfolding mount_group
Keeps-mount_group at found mounts (g, Target.own_mount) h t k =
    elim (Bool-cases (all_found found (split b',' g))) [
      | inl e ↦ rw e (Keeps-mount_unless_there mounts (at g) h t k)
      | inr e ↦ rw e k
    ]
Keeps-mount_group at found mounts (g, Target.link_to other) h t k =
    elim (Bool-cases (all_found found (split b',' g))) [
      | inl e ↦ rw e (Keeps-link_group other (at g) h t k)
      | inr e ↦ rw e k
    ]

Keeps-mount_groups :
    (at : Text → Text) (found : List Text) (mounts : List Mounted) (gs : List (Text × Target))
    → Keeps (mount_groups at found mounts gs)
unfolding mount_groups
Keeps-mount_groups at found mounts [] h t k = k
Keeps-mount_groups at found mounts (g ∷ gs) h t k =
    continued-Keeps (mount_group at found mounts g h).0 (mount_groups at found mounts gs)
      (mount_group at found mounts g h).1 t (Keeps-mount_groups at found mounts gs)
      (Keeps-mount_group at found mounts g h t k)

mounted_IsThere :
    (target : Text) (r : Result (Unit {0})) (s : MountHost)
    → (continue r (λ _. mount target) s).0 ≡ ok tt
    → has_text target (continue r (λ _. mount target) s).1.mounted ≡ true
mounted_IsThere target (ok _) s e = mount-there target s e
mounted_IsThere target (err x) s e = absurd (cc e)

mount_unless_there-IsThere :
    (mounts : List Mounted) (target : Text) (h : MountHost)
    → (mount_unless_there mounts target h).0 ≡ ok tt
    → IsThere mounts (mount_unless_there mounts target h).1 target
unfolding mount_unless_there
mount_unless_there-IsThere mounts target h e = elim (Bool-cases (is_empty (lookup mounts target))) [
  | inl x ↦
      (let made : (◌>>◌ (on_disk (mkdir_all target)) (mount target) h).0 ≡ ok tt =
          subst
            (λ b.
              (if◌then◌else◌ (not b) (pure tt) (on_disk (mkdir_all target) >> mount target) h).0
              ≡ ok tt)
            x e in
        rw x (
          mounted_IsThere target (mkdir_all target h.disk).0
            (record h { disk = (mkdir_all target h.disk).1 }) made))
  | inr x ↦ rw x refl
]

IsThere-Keeps :
    (m : Exec MountHost (Unit {0}))
    → Keeps m
    → (mounts : List Mounted) (target : Text) (h : MountHost) → IsThere mounts h target
    → IsThere mounts (m h).1 target
IsThere-Keeps m k mounts target h e = elim (Bool-cases (is_empty (lookup mounts target))) [
  | inl x ↦ ground (arith, x, k h target)
  | inr x ↦ ground (arith, x)
]

-- A group that is to be mounted and whose parts the kernel offers.
abbrev pub IsWanted : List Text → Text × Target → Type 0
IsWanted found (g, Target.own_mount) = all_found found (split b',' g) ≡ true
IsWanted found (g, Target.link_to _) = ⊥

mount_group-IsThere :
    (at : Text → Text) (found : List Text) (mounts : List Mounted) (g : Text × Target)
    (h : MountHost)
    → (mount_group at found mounts g h).0 ≡ ok tt
    → IsWanted found g
    → IsThere mounts (mount_group at found mounts g h).1 (at g.0)
unfolding mount_group
mount_group-IsThere at found mounts (g, Target.link_to _) h e w = absurd w
mount_group-IsThere at found mounts (g, Target.own_mount) h e w =
    let made =
      subst (λ b. (if◌then◌else◌ (not b) (pure tt) (mount_unless_there mounts (at g)) h).0 ≡ ok tt)
        w e in
    rw w (mount_unless_there-IsThere mounts (at g) h made)

mount_groups-IsThere :
    (at : Text → Text) (found : List Text) (mounts : List Mounted) (gs : List (Text × Target))
    (h : MountHost)
    → (mount_groups at found mounts gs h).0 ≡ ok tt
    → All (λ g. IsWanted found g → IsThere mounts (mount_groups at found mounts gs h).1 (at g.0)) gs
unfolding mount_groups
mount_groups-IsThere at found mounts [] h e = tt
mount_groups-IsThere at found mounts (g ∷ gs) h e =
    let after = (mount_group at found mounts g h).1 in
    let (_, q, step) =
      continue_ok (mount_group at found mounts g h).0 (λ _. mount_groups at found mounts gs) after
        tt e in
    let others = mount_groups-IsThere at found mounts gs after (ap (λ r. r.0) (sym step) ∙ e) in
    subst (λ s. All (λ g. IsWanted found g → IsThere mounts s.1 (at g.0)) (g ∷ gs)) (sym step)
      (
        λ w.
            IsThere-Keeps (mount_groups at found mounts gs) (Keeps-mount_groups at found mounts gs)
              mounts (at g.0) after (mount_group-IsThere at found mounts g h q w),
        others,
      )

when_required_ok : (b : Bool) → when_required b ≡ ok tt → b ≡ true
when_required_ok true e = refl
when_required_ok false e = absurd (cc e)

-- A call of `MountCgroups` that succeeds has found every required cgroup in the kernel and no conflict in
-- the table of mounts; and the root and every group that is to be mounted and that the kernel offers
-- stand in that table or have been mounted, in whatever order the groups come.
pub mount_cgroups_lem :
    (at : Text → Text) (cgroot : Text) (cgroups : Result Text) (table : Result (List Mounted))
    (groups : List (Text × Target)) (h : MountHost)
    → (mount_cgroups at cgroot cgroups table groups h).0 ≡ ok tt
    → (found : List Text) × (mounts : List Mounted) × (parse_host_cgroups cgroups ≡ ok found)
      × (table ≡ ok mounts)
      × (all_found found required_set ≡ true)
      × (check_for_conflicts cgroot mounts ≡ ok tt)
      × IsThere mounts (mount_cgroups at cgroot cgroups table groups h).1 cgroot
      × All
          (λ g.
            IsWanted found g
            → IsThere mounts (mount_cgroups at cgroot cgroups table groups h).1 (at g.0))
          groups
unfolding mount_cgroups
mount_cgroups_lem at cgroot cgroups table groups h e =
    let (found, ef, s1) = continue_ok (parse_host_cgroups cgroups) _ h tt e in
    let e1 = ap (λ r. r.0) (sym s1) ∙ e in
    let (_, er, s2) = continue_ok (when_required (all_found found required_set)) _ h tt e1 in
    let e2 = ap (λ r. r.0) (sym s2) ∙ e1 in
    let (mounts, em, s3) = continue_ok table _ h tt e2 in
    let e3 = ap (λ r. r.0) (sym s3) ∙ e2 in
    let (_, ec, s4) = continue_ok (check_for_conflicts cgroot mounts) _ h tt e3 in
    let e4 = ap (λ r. r.0) (sym s4) ∙ e3 in
    let root = mount_unless_there mounts cgroot h in
    let rest = mount_groups at found mounts groups in
    let (_, eu, s5) = continue_ok root.0 (λ _. rest) root.1 tt e4 in
    let e5 = ap (λ r. r.0) (sym s5) ∙ e4 in
    let there =
      IsThere-Keeps rest (Keeps-mount_groups at found mounts groups) mounts cgroot root.1
        (mount_unless_there-IsThere mounts cgroot h eu) in
    let groups_there = mount_groups-IsThere at found mounts groups root.1 e5 in
    let (there', groups_there') =
      subst
        (λ s.
          IsThere mounts s.1 cgroot
          × All (λ g. IsWanted found g → IsThere mounts s.1 (at g.0)) groups)
        (sym (s1 ∙ s2 ∙ s3 ∙ s4 ∙ s5)) (there, groups_there) in
    (
      found,
      mounts,
      ef,
      em,
      when_required_ok (all_found found required_set) er,
      ec,
      there',
      groups_there',
    )
