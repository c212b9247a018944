-- ===== src/Etcd/Init/Links.antt =====
-- The links to the binaries of etcd.
use planet.Os.{update, calm, Node, link, remove, symlink, Disk}
use planet.Trace.{ok, Result}
use planet.Etcd.Init.{etcd_path, binaries, etcdctl_path, link_binaries}
use planet.Utils.Retry.{result_cases}
use planet.Os.Laws.{update_twice, update_same, remove-some, symlink-none, remove-none}
use planet.Base.{
  ◌≡◌, refl, sym, ap, ◌∙◌, inl, inr, false, Option, none, some, List, [], ◌∷◌, ◌++◌, arith,
  if◌then◌else◌, Text, codes, text_eq,
}

-- A link that could be made is there, and nothing else has changed.
pub symlink_done :
    (target p : Text) (d : Disk)
    → (symlink target p d).0 ≡ ok tt
    → (q : Text)
    → (symlink target p d).1.nodes q ≡ (if text_eq p q then some (link target) else d.nodes q)
unfolding symlink
symlink_done target p d h q = ground (arith, h)

remove_other : (p q : Text) (d : Disk) → text_eq p q ≡ false → (remove p d).1.nodes q ≡ d.nodes q
unfolding remove
remove_other p q d h = ground (arith, h)

abbrev pub target_of : Text → Text → Text
target_of version p = p ++ (codes "-" ++ version)

paths_differ : text_eq etcdctl_path etcd_path ≡ false
unfolding text_eq
paths_differ = refl

-- One turn of the loop.
link_step :
    (version p : Text) (ps : List Text) (d : Disk)
    → (link_binaries version (p ∷ ps) d).0 ≡ ok tt
    → ((symlink (target_of version p) p (remove p d).1).0 ≡ ok tt)
      × (link_binaries version (p ∷ ps) d
          ≡ link_binaries version ps (symlink (target_of version p) p (remove p d).1).1)
unfolding link_binaries
link_step version p ps d h =
    let m : Result (Unit {0}) × Disk = symlink (target_of version p) p (remove p d).1 in
    elim (result_cases m.0) [ inl q ↦ (q, rw q refl) | inr (x, q) ↦ absurd (cc (h, q)) ]

-- Where the loop over the two binaries succeeds, whatever removals failed on the way, both are links
-- to the binaries of the version.
pub link_binaries_lem :
    (version : Text) (d : Disk)
    → (link_binaries version binaries d).0 ≡ ok tt
    → ((link_binaries version binaries d).1.nodes etcd_path
        ≡ some (link (target_of version etcd_path)))
      × ((link_binaries version binaries d).1.nodes etcdctl_path
          ≡ some (link (target_of version etcdctl_path)))
unfolding link_binaries remove text_eq
link_binaries_lem version d h =
    let first = link_step version etcd_path (etcdctl_path ∷ []) d h in
    let d1 : Disk = (symlink (target_of version etcd_path) etcd_path (remove etcd_path d).1).1 in
    let second = link_step version etcdctl_path [] d1 (ap (λ r. r.0) (sym first.1) ∙ h) in
    let d2 : Disk = (remove etcdctl_path d1).1 in
    let last = symlink_done (target_of version etcdctl_path) etcdctl_path d2 second.0 in
    let made =
      symlink_done (target_of version etcd_path) etcd_path (remove etcd_path d).1 first.0 in
    rw first.1 (
      rw second.1 (
        last etcd_path ∙ remove_other etcdctl_path etcd_path d1 paths_differ ∙ made etcd_path,
        last etcdctl_path,
      ))

-- One turn where no call fails: whatever was there, the link is made.
link_one-calm :
    (version p : Text) (ps : List Text) (nodes : Text → Option Node) (o : Option Node)
    → nodes p ≡ o
    → link_binaries version (p ∷ ps) (calm nodes)
      ≡ link_binaries version ps (calm (update nodes p (some (link (target_of version p)))))
unfolding link_binaries
link_one-calm version p ps nodes none h =
    rw (remove-none p nodes h) (rw (symlink-none (target_of version p) p nodes h) refl)
link_one-calm version p ps nodes (some n) h = rw (remove-some p nodes n h) (
    rw (symlink-none (target_of version p) p (update nodes p none) (update_same nodes p none))
      (rw (update_twice nodes p none (some (link (target_of version p)))) refl))

-- Where no call fails the loop succeeds.
pub link_binaries-calm :
    (version : Text) (ps : List Text) (nodes : Text → Option Node)
    → (after : Text → Option Node) × (link_binaries version ps (calm nodes) ≡ (ok tt, calm after))
unfolding link_binaries
link_binaries-calm version [] nodes = (nodes, refl)
link_binaries-calm version (p ∷ ps) nodes =
    let rest = link_binaries-calm version ps (update nodes p (some (link (target_of version p)))) in
    (rest.0, link_one-calm version p ps nodes (nodes p) refl ∙ rest.1)
