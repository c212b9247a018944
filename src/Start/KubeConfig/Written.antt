-- ===== src/Start/KubeConfig/Written.antt =====
-- What `addKubeConfig` has written when it succeeds, on a disk on which any call may fail.
use planet.Base.{
  ◌≡◌, refl, sym, ap, ◌∙◌, inl, inr, Bool, true, false, some, [], ◌∷◌, ◌++◌, arith, Text, text_eq,
  text_eq_iff,
}
use planet.Trace.{ok, err, Result, continue, continue_ok, ◌>>◌}
use planet.Os.{Disk, Node, file, mkdir_all}
use planet.Utils.SafeFile.{safe_write, safe_write-atomic, safe_write-other}
use planet.Start.KubeConfig.{
  write_kube_config, add_kube_config, new_kube_config, kubectl_config_path,
  kubectl_host_config_path, gravity_data_dir,
}

text_eq-append : (r a b : Text) → text_eq (r ++ a) (r ++ b) ≡ text_eq a b
unfolding text_eq
text_eq-append [] a b = refl
text_eq-append (c ∷ r) a b = ground (arith, text_eq-append r a b)

-- The directories are made, or the call fails.
mkdir_all-keeps :
    (x q : Text) (d : Disk) (n : Node) → d.nodes q ≡ some n → (mkdir_all x d).1.nodes q ≡ some n
unfolding mkdir_all
mkdir_all-keeps x q d n h = ground (arith, h, text_eq_iff x q)

module _ (parent temp : Text → Text) (ip dir path : Text) (d : Disk) where
  abbrev ran : Result (Unit {0}) × Disk
  ran = write_kube_config parent temp path ip dir d

  write_kube_config-ok :
      text_eq (temp path) path ≡ false
      → ran.0 ≡ ok tt
      → ran.1.nodes path ≡ some (file (new_kube_config ip dir))
  unfolding write_kube_config
  write_kube_config-ok h e =
      let made = mkdir_all (parent path) d in
      let new : Text = new_kube_config ip dir in
      let (u, m, ran_as) = continue_ok made.0 (λ _. safe_write (temp path) path new) made.1 tt e in
      ap (λ x. x.1.nodes path) ran_as ∙ elim (safe_write-atomic (temp path) path new h made.1) [
        | inl a ↦ a.1
        | inr b ↦ absurd (b.0 (sym (ap (λ x. x.0) ran_as) ∙ e))
      ]

  write_kube_config-keeps :
      (q : Text) (n : Node)
      → text_eq (temp path) path ≡ false
      → text_eq (temp path) q ≡ false
      → text_eq path q ≡ false
      → d.nodes q ≡ some n
      → ran.1.nodes q ≡ some n
  unfolding write_kube_config
  write_kube_config-keeps q n o h k e =
      behind (mkdir_all (parent path) d).0 (mkdir_all (parent path) d).1
        (mkdir_all-keeps (parent path) q d n e)
    where
      behind :
          (r : Result (Unit {0})) (s : Disk)
          → s.nodes q ≡ some n
          → (continue r (λ _. safe_write (temp path) path (new_kube_config ip dir)) s).1.nodes q
            ≡ some n
      behind (ok u) s p = safe_write-other (temp path) path (new_kube_config ip dir) o s q h k ∙ p
      behind (err x) s p = p

-- Two rounds that succeed.
both :
    (parent temp : Text → Text) (ip dir other_dir p q : Text) (d : Disk)
    → text_eq (temp p) p ≡ false
    → text_eq (temp q) q ≡ false
    → text_eq (temp q) p ≡ false
    → text_eq q p ≡ false
    → ((write_kube_config parent temp p ip dir >> write_kube_config parent temp q ip other_dir) d).0
      ≡ ok tt
    → (((write_kube_config parent temp p ip dir >> write_kube_config parent temp q ip other_dir)
            d).1.nodes
          p
        ≡ some (file (new_kube_config ip dir)))
      × (((write_kube_config parent temp p ip dir >> write_kube_config parent temp q ip other_dir)
              d).1.nodes
            q
          ≡ some (file (new_kube_config ip other_dir)))
both parent temp ip dir other_dir p q d a b c n e =
    let first = write_kube_config parent temp p ip dir d in
    let (u, m, ran_as) =
      continue_ok first.0 (λ _. write_kube_config parent temp q ip other_dir) first.1 tt e in
    (
      ap (λ x. x.1.nodes p) ran_as
          ∙ write_kube_config-keeps parent temp ip other_dir q first.1 p
              (file (new_kube_config ip dir)) b c n
              (write_kube_config-ok parent temp ip dir p d a m),
      ap (λ x. x.1.nodes q) ran_as
          ∙ write_kube_config-ok parent temp ip other_dir q first.1 b
              (sym (ap (λ x. x.0) ran_as) ∙ e),
    )

-- The paths and the names of the temporary files that the program chooses do not clash.
pub record AreApart (temp : Text → Text) (p q : Text) : Type 0 where
  pub own : text_eq (temp p) p ≡ false
  pub other_own : text_eq (temp q) q ≡ false
  pub first_other : text_eq (temp p) q ≡ false
  pub other_first : text_eq (temp q) p ≡ false

-- Whatever calls fail and in whichever order the two files are written: where `addKubeConfig` succeeds,
-- the file for kubectl inside the container holds the configuration with planet's own data directory, and
-- the file for kubectl on the host the one with the state directory of the host.
pub add_kube_config_written :
    (parent temp : Text → Text) (swapped : Bool) (rootfs ip host_state_dir : Text) (d : Disk)
    → AreApart temp (rootfs ++ kubectl_config_path) (rootfs ++ kubectl_host_config_path)
    → (add_kube_config parent temp swapped rootfs ip host_state_dir d).0 ≡ ok tt
    → ((add_kube_config parent temp swapped rootfs ip host_state_dir d).1.nodes
          (rootfs ++ kubectl_config_path)
        ≡ some (file (new_kube_config ip gravity_data_dir)))
      × ((add_kube_config parent temp swapped rootfs ip host_state_dir d).1.nodes
            (rootfs ++ kubectl_host_config_path)
          ≡ some (file (new_kube_config ip host_state_dir)))
unfolding add_kube_config text_eq
add_kube_config_written parent temp false rootfs ip host_state_dir d a e =
    let p : Text = rootfs ++ kubectl_config_path in
    let q : Text = rootfs ++ kubectl_host_config_path in
    let (x, y) =
      both parent temp ip gravity_data_dir host_state_dir p q d a.own a.other_own a.other_first
        (text_eq-append rootfs kubectl_host_config_path kubectl_config_path) e in
    (x, y)
add_kube_config_written parent temp true rootfs ip host_state_dir d a e =
    let p : Text = rootfs ++ kubectl_config_path in
    let q : Text = rootfs ++ kubectl_host_config_path in
    let (x, y) =
      both parent temp ip host_state_dir gravity_data_dir q p d a.other_own a.own a.first_other
        (text_eq-append rootfs kubectl_config_path kubectl_host_config_path) e in
    (y, x)
