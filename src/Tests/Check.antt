-- ===== src/Tests/Check.antt =====
-- A host with three mounts, in two orders.
use planet.Check.Filesystems.Longest.{IsMap, ◌∈◌}
use planet.Check.Filesystems.{better, Mounted, is_btrfs_volume}
use planet.Base.{◌≡◌, refl, sym, ap, ◌∙◌, ◌≢◌, ◌↔◌, inl, inr, true, List, [], ◌∷◌, arith, codes}

abbrev root : Mounted
root = record { point = codes "/"; fs = codes "ext4" }

abbrev var : Mounted
var = record { point = codes "/var"; fs = codes "btrfs" }

abbrev there : List Mounted
there = root ∷ var ∷ []

abbrev back : List Mounted
back = var ∷ root ∷ []

apart : codes "/" ≢ codes "/var"
apart e = cc

there-IsMap : IsMap there
there-IsMap m n (inl a) (inl b) e = a ∙ sym b
there-IsMap m n (inl a) (inr (inl b)) e =
    absurd (apart (ap (λ x. x.point) (sym a) ∙ e ∙ ap (λ x. x.point) b))
there-IsMap m n (inr (inl a)) (inl b) e =
    absurd (apart (ap (λ x. x.point) (sym b) ∙ sym e ∙ ap (λ x. x.point) a))
there-IsMap m n (inr (inl a)) (inr (inl b)) e = a ∙ sym b
there-IsMap m n (inr (inr a)) j e = absurd a
there-IsMap m n (inl a) (inr (inr b)) e = absurd b
there-IsMap m n (inr (inl a)) (inr (inr b)) e = absurd b

same_entries : (m : Mounted) → (m ∈ there) ↔ (m ∈ back)
same_entries m = ground arith

-- A directory beside a mount point that begins its name counts as below it.
beside : is_btrfs_volume (codes "/variable") there ≡ true
unfolding is_btrfs_volume better
beside = refl
