-- ===== src/Tests/Required.antt =====
-- The mounts of a node whose docker directory is on btrfs, the join of an etcd node and a worker's resolver.
use planet.Start.Required.{
  check_required_mounts, etcd_work_dir, docker_work_dir, registry_work_dir, scan_mounts, claim_etcd,
  chown_dir, chown_all,
}
use planet.Etcd.Enable.{etcd_init_join, must_join}
use planet.Etcd.Enable.Guards.{HasToJoin, NothingToJoin, etcd_init_join_lem}
use planet.ClusterDns.{dns_env_file}
use planet.Box.Mounts.{Mounts, Mount}
use planet.Env.{EnvVars}
use planet.Trace.{system, err, Exec, ok}
use planet.Os.{directory, calm, Disk}
use planet.Utils.Retry.{runs, FirstSuccess, retry}
use planet.Base.{
  ℕ, suc, ◌+◌, ◌<◌, ◌≡◌, refl, ◌⊎◌, Bool, false, some, [], ◌∷◌, ltb, if◌then◌else◌, Text, codes,
  text_eq,
}

abbrev mount_to : Text → Text → Mount
mount_to src dst = record {
  src = src;
  dst = dst;
  readonly = false;
  skip_if_missing = false;
  recursive = false;
}

abbrev mounts : Mounts
mounts =
    mount_to (codes "/mnt/etcd") etcd_work_dir
    ∷ mount_to (codes "/mnt/docker") docker_work_dir
    ∷ mount_to (codes "/mnt/registry") registry_work_dir
    ∷ []

abbrev btrfs : Text → Bool
btrfs p = text_eq p (codes "/mnt/docker")

abbrev full : Disk
full = calm (λ q. some directory)

checked :
    (check_required_mounts (λ p. p) (λ p. []) btrfs (codes "overlay") mounts full).0
    ≡ ok (codes "btrfs")
unfolding check_required_mounts scan_mounts claim_etcd chown_dir chown_all
checked = refl

-- The attempt counts its runs and succeeds from the second on.
abbrev second : EnvVars → Exec ℕ (Unit {0})
second env n = (if ltb n 1 then err (system 1) else ok tt, n + 1)

abbrev env : EnvVars
env = (record { name = codes "ETCD_INITIAL_CLUSTER_STATE"; val = codes "existing" }) ∷ []

abbrev master : Text
master = codes "10.0.0.1"

joined : (etcd_init_join 4 [] second (ok env) master 0).0 ≡ ok tt
unfolding etcd_init_join must_join retry
joined = refl

etcd_init_join_example :
    (NothingToJoin env master × ((etcd_init_join 4 [] second (ok env) master 0).1 ≡ 0))
    ⊎ (HasToJoin env master
        × ((k : ℕ) × (k < 4)
            × FirstSuccess (second env) 0 k
            × ((etcd_init_join 4 [] second (ok env) master 0).1 ≡ runs (second env) (suc k) 0)))
etcd_init_join_example = etcd_init_join_lem 3 [] second env master 0 joined

abbrev temp : Text
temp = codes "/run/dns.env123"

differ : text_eq temp dns_env_file ≡ false
unfolding text_eq
differ = refl
