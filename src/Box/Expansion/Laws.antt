-- ===== src/Box/Expansion/Laws.antt =====
-- When the mounts of a configuration can be made, and which they are.
use planet.Box.Expansion.{mount_match, followed, expand_one, ContainerMount, expand}
use planet.Trace.{err, ok, Result}
use planet.Box.Mounts.{Mounts, Mount}
use planet.Base.{◌≡◌, refl, ◌↔◌, true, List, [], ◌∷◌, ◌++◌, map, arith, Text, All}

-- The source of a specification can be mounted: its pattern is valid, and matches something or may
-- match nothing.
abbrev pub IsMountable : Mount → Result (List Text) → Type 0
IsMountable spec (err _) = ⊥
IsMountable spec (ok []) = spec.skip_if_missing ≡ true
IsMountable spec (ok (_ ∷ _)) = Unit

abbrev matches_of : Result (List Text) → List Text
matches_of (ok ms) = ms
matches_of (err _) = []

-- The mounts of every match of every specification, in their order.
abbrev pub all_mounts : (Text → Result (List Text)) → Mounts → List ContainerMount
all_mounts glob [] = []
all_mounts glob (spec ∷ specs) =
    map (mount_match spec) (matches_of (glob spec.src)) ++ all_mounts glob specs

expand_one-ok :
    (spec : Mount) (r : Result (List Text))
    → IsMountable spec r
    → expand_one spec r ≡ ok (map (mount_match spec) (matches_of r))
unfolding expand_one
expand_one-ok spec (err e) h = absurd h
expand_one-ok spec (ok []) h = rw h refl
expand_one-ok spec (ok (m ∷ ms)) h = refl

expand_one-IsMountable :
    (spec : Mount) (r : Result (List Text)) (mounts : List ContainerMount)
    → expand_one spec r ≡ ok mounts
    → IsMountable spec r
unfolding expand_one
expand_one-IsMountable spec (err e) mounts h = absurd (cc h)
expand_one-IsMountable spec (ok []) mounts h = ground (arith, h)
expand_one-IsMountable spec (ok (m ∷ ms)) mounts h = tt

followed_ok :
    (a : List ContainerMount) (r : Result (List ContainerMount)) (mounts : List ContainerMount)
    → followed a r ≡ ok mounts
    → (b : List ContainerMount) × (r ≡ ok b)
followed_ok a (ok b) mounts h = (b, refl)
followed_ok a (err e) mounts h = absurd (cc h)

expand-ok :
    (glob : Text → Result (List Text)) (specs : Mounts)
    → All (λ spec. IsMountable spec (glob spec.src)) specs
    → expand glob specs ≡ ok (all_mounts glob specs)
unfolding expand
expand-ok glob [] h = refl
expand-ok glob (spec ∷ specs) h =
    rw (expand_one-ok spec (glob spec.src) h.0, expand) (rw (expand-ok glob specs h.1) refl)

expand_step :
    (glob : Text → Result (List Text)) (spec : Mount) (specs : Mounts)
    (r : Result (List ContainerMount)) (mounts : List ContainerMount)
    → elim r [ err e ↦ err e | ok some_mounts ↦ followed some_mounts (expand glob specs) ]
      ≡ ok mounts
    → ((a : List ContainerMount) × (r ≡ ok a))
      × ((b : List ContainerMount) × (expand glob specs ≡ ok b))
expand_step glob spec specs (ok a) mounts h =
    ((a, refl), followed_ok a (expand glob specs) mounts h)
expand_step glob spec specs (err e) mounts h = absurd (cc h)

expand-IsMountable :
    (glob : Text → Result (List Text)) (specs : Mounts) (mounts : List ContainerMount)
    → expand glob specs ≡ ok mounts
    → All (λ spec. IsMountable spec (glob spec.src)) specs
unfolding expand
expand-IsMountable glob [] mounts h = tt
expand-IsMountable glob (spec ∷ specs) mounts h =
    let ((a, ea), (b, eb)) =
      expand_step glob spec specs (expand_one spec (glob spec.src)) mounts h in
    (expand_one-IsMountable spec (glob spec.src) a ea, expand-IsMountable glob specs b eb)

-- The mounts of a configuration can be made just where every pattern is valid and matches something
-- or may match nothing, and then they are those of every match of every specification in turn.
pub expand_iff :
    (glob : Text → Result (List Text)) (specs : Mounts)
    → (All (λ spec. IsMountable spec (glob spec.src)) specs
        ↔ ((mounts : List ContainerMount) × (expand glob specs ≡ ok mounts)))
      × ((mounts : List ContainerMount)
          → expand glob specs ≡ ok mounts
          → mounts ≡ all_mounts glob specs)
expand_iff glob specs = (
  (
    (λ h. (all_mounts glob specs, expand-ok glob specs h)),
    λ (mounts, e). expand-IsMountable glob specs mounts e,
  ),
  λ mounts e. let k = expand-ok glob specs (expand-IsMountable glob specs mounts e) in cc (e, k),
)
