-- ===== src/Start/Required/Present.antt =====
-- What is known when the required mounts have been checked.
use planet.Start.Required.{
  all_seen, claim_etcd, claim_when, nothing_seen, registry_work_dir, etcd_work_dir, Seen,
  docker_work_dir, see, scan_mounts, check_required_mounts,
}
use planet.Trace.{lift, then_ok, ok_inj, ok}
use planet.Os.{Disk}
use planet.Box.Mounts.{Mounts}
use mathlib.Core.Path.{subst}
use planet.Base.{
  ◌≡◌, refl, Bool, true, false, ◌&&◌, ◌||◌, List, [], ◌∷◌, arith, if◌then◌else◌, Text, codes,
  text_eq,
}

-- Whether some mount goes to a directory, and whether some mount of docker's directory is on btrfs.
unfoldable pub is_mounted : (Text → Text) → Text → Mounts → Bool
unfolding text_eq
is_mounted clean dir [] = false
is_mounted clean dir (m ∷ ms) = text_eq (clean m.dst) dir || is_mounted clean dir ms

unfoldable pub docker_on_btrfs : (Text → Text) → (Text → Bool) → Mounts → Bool
unfolding text_eq
docker_on_btrfs clean btrfs [] = false
docker_on_btrfs clean btrfs (m ∷ ms) =
    (text_eq (clean m.dst) docker_work_dir && btrfs m.src) || docker_on_btrfs clean btrfs ms

module _ (clean : Text → Text) (under : Text → List Text) (btrfs : Text → Bool) where
  scan_mounts_lem :
      (ms : Mounts) (s r : Seen) (d : Disk)
      → (scan_mounts clean under btrfs ms s d).0 ≡ ok r
      → (r.etcd ≡ s.etcd || is_mounted clean etcd_work_dir ms)
        × (r.docker ≡ s.docker || is_mounted clean docker_work_dir ms)
        × (r.registry ≡ s.registry || is_mounted clean registry_work_dir ms)
        × (r.docker_backend
            ≡ (if docker_on_btrfs clean btrfs ms then codes "btrfs" else s.docker_backend))
  unfolding scan_mounts is_mounted docker_on_btrfs see
  scan_mounts_lem [] s r d h =
      subst
        (λ x.
          (x.etcd ≡ s.etcd || false)
          × (x.docker ≡ s.docker || false)
          × (x.registry ≡ s.registry || false)
          × (x.docker_backend ≡ s.docker_backend))
        (ok_inj s r h) (ground arith, ground arith, ground arith, refl)
  scan_mounts_lem (m ∷ ms) s r d h =
      let claim = claim_when (text_eq (clean m.dst) etcd_work_dir) (claim_etcd under m.src) in
      let (_, _, rest) =
        then_ok (claim d).0 (λ _. scan_mounts clean under btrfs ms (see clean btrfs m s))
          (claim d).1 r h in
      let (a, b, c, e) = scan_mounts_lem ms (see clean btrfs m s) r (claim d).1 rest in
      ground (arith, a, b, c, e)

  -- A check of the mounts that succeeds has seen a mount for each of the three data directories, and the
  -- storage driver is btrfs where docker's directory is mounted from a btrfs volume and the configured
  -- one otherwise.
  pub check_required_mounts_lem :
      (backend r : Text) (mounts : Mounts) (d : Disk)
      → (check_required_mounts clean under btrfs backend mounts d).0 ≡ ok r
      → (is_mounted clean etcd_work_dir mounts ≡ true)
        × (is_mounted clean docker_work_dir mounts ≡ true)
        × (is_mounted clean registry_work_dir mounts ≡ true)
        × (r ≡ (if docker_on_btrfs clean btrfs mounts then codes "btrfs" else backend))
  unfolding check_required_mounts
  check_required_mounts_lem backend r mounts d h =
      let scanned = scan_mounts clean under btrfs mounts (nothing_seen backend) d in
      let (s, e, all) = then_ok scanned.0 (λ s. lift (all_seen s)) scanned.1 r h in
      let (a, b, c, x) = scan_mounts_lem mounts (nothing_seen backend) s d e in
      ground (arith, a, b, c, x, all)
