-- ===== src/Etcd/Restore/Wiped.antt =====
-- What `etcdWipe` deletes.
use planet.Trace.{ok_inj, ◌>>=◌, Result, err, pure, ok, lift}
use planet.Strings.{trim_space}
use planet.Etcd.Restore.{confirmation, version_or_assumed, data_dir, wipe}
use planet.Etcd.Version.{base_dir, current_version_file, Versions}
use planet.Os.{Disk, calm, Node}
use planet.Etcd.Version.RoundTrip.{read_version-calm, versions_in}
use planet.Os.Laws.{remove_all-calm, removed}
use planet.Utils.Retry.{result_cases}
use planet.Base.{
  ◌≡◌, refl, ap, ◌∙◌, ◌≢◌, ◌⊎◌, inl, inr, Bool, true, false, Option, Bool-cases, Text, codes,
  text_eq, text_eq_iff,
}

abbrev pub based : Result Text → Result Text
based (ok version) = ok (base_dir version)
based (err e) = err e

-- The data directory of the node.
abbrev pub dir_of : Result Versions → Result Text
dir_of r = based (version_or_assumed r)

data_dir_cases :
    (r : Result Text) (d : Disk) → (lift r >>= λ version. pure (base_dir version)) d ≡ (based r, d)
data_dir_cases (ok v) d = refl
data_dir_cases (err e) d = refl

data_dir-calm :
    (nodes : Text → Option Node)
    → data_dir (calm nodes) ≡ (dir_of (versions_in nodes current_version_file), calm nodes)
unfolding data_dir
data_dir-calm nodes =
    rw (read_version-calm current_version_file nodes)
      (data_dir_cases (version_or_assumed (versions_in nodes current_version_file)) (calm nodes))

-- What the user typed is `yes` with any space around it.
abbrev pub Typed : Result Text → Type 0
Typed response = (t : Text) × (response ≡ ok t) × (trim_space t ≡ codes "yes")

confirmation-Typed :
    (response : Result Text)
    → ((confirmation response ≡ ok tt) × Typed response)
      ⊎ ((confirmation response ≢ ok tt) × (¬ Typed response))
unfolding confirmation
confirmation-Typed (err e) = inr ((λ q. cc), λ (t, q, _). cc)
confirmation-Typed (ok t) = elim (Bool-cases (text_eq (trim_space t) (codes "yes"))) [
  | inl e ↦ inl (rw e refl, (t, refl, (text_eq_iff (trim_space t) (codes "yes")).0 e))
  | inr e ↦ inr (rw e (λ q. cc), not_typed e)
]
  where
    not_typed : text_eq (trim_space t) (codes "yes") ≡ false → ¬ Typed (ok t)
    not_typed e (u, q, r) =
        let same =
          (text_eq_iff (trim_space t) (codes "yes")).1 (ap trim_space (ok_inj t u q) ∙ r) in
        cc (e, same)

-- Where no call fails: the data of the node is deleted just where the user confirmed it, by the flag or
-- by typing `yes`, and otherwise nothing changes and an error is reported.
pub wipe_lem :
    (confirmed : Bool) (response : Result Text) (nodes : Text → Option Node) (dir : Text)
    → dir_of (versions_in nodes current_version_file) ≡ ok dir
    → (((confirmed ≡ true) ⊎ Typed response)
        × (wipe confirmed response (calm nodes) ≡ (ok tt, calm (removed dir nodes))))
      ⊎ ((confirmed ≡ false)
          × (¬ Typed response)
          × ((wipe confirmed response (calm nodes)).0 ≢ ok tt)
          × ((wipe confirmed response (calm nodes)).1 ≡ calm nodes))
unfolding wipe
wipe_lem true response nodes dir h =
    inl (inl refl, rw (data_dir-calm nodes) (rw h (remove_all-calm dir nodes)))
wipe_lem false response nodes dir h = elim (confirmation-Typed response) [
  | inl (e, typed) ↦
      inl (inr typed, rw (data_dir-calm nodes) (rw h (rw e (remove_all-calm dir nodes))))
  | inr (e, untyped) ↦ elim (result_cases (confirmation response)) [
    | inl q ↦ absurd (e q)
    | inr (x, q) ↦ inr (
      refl,
      untyped,
      rw (data_dir-calm nodes) (rw h (rw q (λ z. cc z))),
      rw (data_dir-calm nodes) (rw h (rw q refl)),
    )
  ]
]
