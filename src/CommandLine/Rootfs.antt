-- ===== src/CommandLine/Rootfs.antt =====
-- Where the root filesystem is.
use planet.Strings.{has_prefix}
use planet.Trace.{pure, ok_inj, then_ok, ok}
use planet.CommandLine.{root_at, stat, rootfs_dir, find_rootfs, before}
use planet.Os.{Disk}
use mathlib.Core.Path.{subst}
use planet.Base.{
  ℕ, ◌≡◌, refl, sym, ap, ◌∙◌, inl, inr, true, Option, none, some, [], ◌∷◌, ◌++◌, arith,
  if◌then◌else◌, Bool-cases, Text, codes,
}

has_prefix-append : (p s : Text) → has_prefix p s ≡ true → (rest : Text) × (s ≡ p ++ rest)
unfolding has_prefix
has_prefix-append [] s h = (s, refl)
has_prefix-append (x ∷ p) [] h = absurd (cc h)
has_prefix-append (x ∷ p) (c ∷ s) h =
    let (rest, e) = has_prefix-append p s (ground (arith, h)) in
    let k : c ≡ x = ground (arith, h) in (rest, ap (λ z. z ∷ s) k ∙ ap (λ z. x ∷ z) e)

at_start :
    (sub s t : Text)
    → has_prefix sub s ≡ true
    → some [] ≡ some t
    → (rest : Text) × (s ≡ t ++ (sub ++ rest))
at_start sub s t e h =
    let (rest, same) = has_prefix-append sub s e in
    let k : [] ≡ t = cc h in (rest, same ∙ ap (λ z. z ++ (sub ++ rest)) k)

further :
    (r : Option Text) (c : ℕ) (t : Text)
    → elim r [ none ↦ none | some t ↦ some (c ∷ t) ] ≡ some t
    → (u : Text) × (r ≡ some u) × (c ∷ u ≡ t)
further (some u) c t h = (u, refl, cc h)
further none c t h = absurd (cc h)

before-some : (sub s t : Text) → before sub s ≡ some t → (rest : Text) × (s ≡ t ++ (sub ++ rest))
unfolding before
before-some sub [] t h = elim (Bool-cases (has_prefix sub [])) [
  | inl e ↦ at_start sub [] t e (subst (λ b. (if b then some [] else none) ≡ some t) e h)
  | inr e ↦ absurd (ground (arith, e, h))
]
before-some sub (c ∷ s) t h = elim (Bool-cases (has_prefix sub (c ∷ s))) [
  | inl e ↦ at_start sub (c ∷ s) t e (
      subst
        (λ b.
          (if b then some [] else elim (before sub s) [ none ↦ none | some t ↦ some (c ∷ t) ])
          ≡ some t)
        e h)
  | inr e ↦
      (let (u, k, same) = further (before sub s) c t (
          subst
            (λ b.
              (if b then some [] else elim (before sub s) [ none ↦ none | some t ↦ some (c ∷ t) ])
              ≡ some t)
            e h) in
        let (rest, split) = before-some sub s u k in
        (rest, ap (λ z. c ∷ z) split ∙ ap (λ z. z ++ (sub ++ rest)) same))
]

found :
    (r : Option Text) (path root : Text) (d : Disk)
    → before rootfs_dir path ≡ r
    → (root_at r d).0 ≡ ok root
    → (t : Text) × (rest : Text) × (path ≡ t ++ (rootfs_dir ++ rest))
      × (root ≡ t ++ codes "/rootfs")
unfolding root_at
found none path root d e h = absurd (cc h)
found (some t) path root d e h =
    let (rest, split) = before-some rootfs_dir path t e in
    let (_, _, last) =
      then_ok (stat (t ++ codes "/rootfs") d).0 (λ _. pure (t ++ codes "/rootfs"))
        (stat (t ++ codes "/rootfs") d).1 root h in
    (t, rest, split, sym (ok_inj _ root last))

-- The root filesystem that is found is a directory named `rootfs` that the path of the program goes
-- through.
pub find_rootfs_lem :
    (path root : Text) (d : Disk)
    → (find_rootfs (ok path) d).0 ≡ ok root
    → (t : Text) × (rest : Text) × (path ≡ t ++ (rootfs_dir ++ rest))
      × (root ≡ t ++ codes "/rootfs")
unfolding find_rootfs
find_rootfs_lem path root d h = found (before rootfs_dir path) path root d refl h
