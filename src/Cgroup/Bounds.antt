-- ===== src/Cgroup/Bounds.antt =====
-- What the default configuration takes from a machine.
use planet.Base.{ℕ, ◌+◌, ◌*◌, ◌≤◌, ◌≡◌, Bool, true, false, arith}
use planet.Cgroup.{default_config, default_period, user_quota}

-- The quota of user tasks is half a core on up to five cores, and a tenth of the cores above.
pub user_quota_lem :
    (num_cpu : ℕ)
    → (num_cpu ≤ 5 → user_quota num_cpu * 2 ≡ default_period)
      × (5 ≤ num_cpu → user_quota num_cpu * 10 ≡ num_cpu * default_period)
unfolding user_quota
user_quota_lem num_cpu = ground arith

-- User tasks never get more than the machine has, and on two cores or more they get at most a
-- quarter of it.
pub user_quota_bounds :
    (num_cpu : ℕ)
    → 1 ≤ num_cpu
    → (user_quota num_cpu ≤ num_cpu * default_period)
      × (2 ≤ num_cpu → user_quota num_cpu * 4 ≤ num_cpu * default_period)
unfolding user_quota
user_quota_bounds num_cpu h = ground arith

-- What is reserved for Kubernetes and the system.
abbrev pub reserved : ℕ → Bool → ℕ
reserved num_cpu is_master =
    (default_config num_cpu is_master).kube_reserved_millicores
    + (default_config num_cpu is_master).kube_system_millicores

-- Nothing is reserved on up to four cores. On more, at most half of the machine's millicores are
-- reserved on a master, and at most three tenths on another node.
pub reserved_bounds :
    (num_cpu : ℕ) (is_master : Bool)
    → (num_cpu ≤ 4 → reserved num_cpu is_master ≡ 0)
      × (5 ≤ num_cpu → reserved num_cpu true * 2 ≤ num_cpu * 1000)
      × (5 ≤ num_cpu → reserved num_cpu false * 10 ≤ num_cpu * 1000 * 3)
unfolding default_config
reserved_bounds num_cpu is_master = ground arith
