-- ===== src/Check/Filesystems/Longest.antt =====
-- The filesystem of a directory does not depend on the order in which a map is iterated.
use planet.Strings.{has_prefix}
use planet.Check.Filesystems.{no_match, Mounted, better, longest, fs_for_dir}
use mathlib.Core.Path.{subst}
use planet.Base.{
  ◌≤◌, ◌<◌, ◌≡◌, refl, sym, ap, ◌∙◌, ◌↔◌, ◌⊎◌, inl, inr, true, List, [], ◌∷◌, arith, Text, length,
}

infix 40 ◌∈◌
abbrev pub ◌∈◌ : Mounted → List Mounted → Type 0
m ∈ [] = ⊥
m ∈ (x ∷ xs) = (m ≡ x) ⊎ (m ∈ xs)

-- Two mounts at one point are one.
abbrev pub IsMap : List Mounted → Type 0
IsMap ms = (m n : Mounted) → m ∈ ms → n ∈ ms → m.point ≡ n.point → m ≡ n

-- Prefixes of one text that are as long as one another are the same.
has_prefix-length :
    (p q s : Text) → has_prefix p s ≡ true → has_prefix q s ≡ true → length p ≡ length q → p ≡ q
unfolding has_prefix
has_prefix-length [] [] s a b h = refl
has_prefix-length [] (y ∷ q) s a b h = ground arith
has_prefix-length (x ∷ p) [] s a b h = ground arith
has_prefix-length (x ∷ p) (y ∷ q) [] a b h = ground arith
has_prefix-length (x ∷ p) (y ∷ q) (c ∷ s) a b h =
    let e : x ≡ y = ground arith in
    rw (e, has_prefix-length p q s (ground arith) (ground arith) (omega (arith, h))) refl

better_cases :
    (dir : Text) (best m : Mounted)
    → (better dir best m ≡ best)
      ⊎ ((better dir best m ≡ m)
          × (has_prefix m.point dir ≡ true)
          × (length best.point < length m.point))
unfolding better
better_cases dir best m = ground arith

better_max :
    (dir : Text) (best m : Mounted)
    → has_prefix m.point dir ≡ true
    → length m.point ≤ length (better dir best m).point
unfolding better
better_max dir best m h = ground arith

longest_le :
    (dir : Text) (best : Mounted) (ms : List Mounted)
    → length best.point ≤ length (longest dir best ms).point
unfolding longest
longest_le dir best [] = omega arith
longest_le dir best (m ∷ ms) =
    let rest = longest_le dir (better dir best m) ms in
    elim (better_cases dir best m) [
      | inl e ↦
          subst (λ x. length x.point ≤ length (longest dir (better dir best m) ms).point) e rest
      | inr (e, _, l) ↦ omega (
        arith,
        l,
        subst (λ x. length x.point ≤ length (longest dir (better dir best m) ms).point) e rest,
      )
    ]

-- The match is as long as every mount point that the directory begins with.
longest_max :
    (dir : Text) (best : Mounted) (ms : List Mounted) (m : Mounted)
    → m ∈ ms
    → has_prefix m.point dir ≡ true
    → length m.point ≤ length (longest dir best ms).point
unfolding longest
longest_max dir best [] m i h = absurd i
longest_max dir best (x ∷ ms) m (inl e) h =
    let k = better_max dir best x (subst (λ y. has_prefix y.point dir ≡ true) e h) in
    subst (λ y. length y.point ≤ length (longest dir (better dir best x) ms).point) (sym e)
      (omega (arith, k, longest_le dir (better dir best x) ms))
longest_max dir best (x ∷ ms) m (inr e) h = longest_max dir (better dir best x) ms m e h

-- A mount that the loop has chosen out of those it has seen.
abbrev IsChosen : Text → Mounted → List Mounted → Mounted → Type 0
IsChosen dir best ms r =
    (r ∈ ms) × (has_prefix r.point dir ≡ true) × (length best.point < length r.point)

longest_in :
    (dir : Text) (best : Mounted) (ms : List Mounted)
    → (longest dir best ms ≡ best) ⊎ IsChosen dir best ms (longest dir best ms)
unfolding longest
longest_in dir best [] = inl refl
longest_in dir best (m ∷ ms) = elim (longest_in dir (better dir best m) ms) [
  | inl same ↦ elim (better_cases dir best m) [
    | inl e ↦ inl (same ∙ e)
    | inr (e, h, l) ↦ inr (subst (IsChosen dir best (m ∷ ms)) (sym (same ∙ e)) (inl refl, h, l))
  ]
  | inr (i, h, l) ↦ elim (better_cases dir best m) [
    | inl e ↦ inr (
      inr i,
      h,
      subst (λ x. length x.point < length (longest dir (better dir best m) ms).point) e l,
    )
    | inr (e, _, k) ↦ inr (
      inr i,
      h,
      omega (
        arith,
        k,
        subst (λ x. length x.point < length (longest dir (better dir best m) ms).point) e l,
      ),
    )
  ]
]

-- No mount is chosen out of one list where none is out of the other.
nothing_elsewhere :
    (dir : Text) (a b : List Mounted) (r : Mounted)
    → ((m : Mounted) → m ∈ b → m ∈ a)
    → longest dir no_match a ≡ no_match
    → ¬ IsChosen dir no_match b r
nothing_elsewhere dir a b r ba e (i, h, l) =
    let k = longest_max dir no_match a r (ba r i) h in
    let z = subst (λ x. length r.point ≤ length x.point) e k in ground (arith, z, l)

-- Whatever the order in which the entries of the map come, the filesystem of a directory is the same.
fs_for_dir-order :
    (dir : Text) (a b : List Mounted)
    → IsMap a
    → ((m : Mounted) → (m ∈ a) ↔ (m ∈ b))
    → fs_for_dir dir a ≡ fs_for_dir dir b
unfolding fs_for_dir
fs_for_dir-order dir a b ma ab = elim (longest_in dir no_match a) [
  | inl ea ↦ elim (longest_in dir no_match b) [
    | inl eb ↦ ap (λ m. m.fs) (ea ∙ sym eb)
    | inr cb ↦ absurd (nothing_elsewhere dir a b (longest dir no_match b) (λ m. (ab m).1) ea cb)
  ]
  | inr ca ↦ elim (longest_in dir no_match b) [
    | inl eb ↦ absurd (nothing_elsewhere dir b a (longest dir no_match a) (λ m. (ab m).0) eb ca)
    | inr cb ↦
        let ra = longest dir no_match a in
        let rb = longest dir no_match b in
        let ib = (ab rb).1 cb.0 in
        let le = longest_max dir no_match b ra ((ab ra).0 ca.0) ca.1 in
        let ge = longest_max dir no_match a rb ib cb.1 in
        ap (λ m. m.fs)
          (ma ra rb ca.0 ib
            (has_prefix-length ra.point rb.point dir ca.1 cb.1 (omega (arith, le, ge))))
  ]
]
