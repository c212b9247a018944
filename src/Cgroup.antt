-- ===== src/Cgroup.antt =====
-- tool/planet/cgroup.go: the default cgroup configuration. Numbers are Go's `int`, which the values of
-- any machine do not reach.
pub mod Bounds
pub mod Applying
pub mod Scopes
use planet.Base.{
  ℕ, ◌+◌, ◌*◌, ◌/◌, Bool, true, Option, none, some, List, [], ◌∷◌, ltb, leb, if◌then◌else◌, Text,
  codes,
}

abbrev pub default_period : ℕ
default_period = 100000

-- The settings of `specs.LinuxResources` that the program makes; `none` is a nil pointer.
pub record CgroupEntry : Type 0 where
  pub path : Text
  pub shares : Option ℕ
  pub quota : Option ℕ
  pub period : Option ℕ
  pub swappiness : Option ℕ

pub record CgroupConfig : Type 0 where
  pub enabled : Bool
  pub auto : Bool
  pub kube_reserved_millicores : ℕ
  pub kube_system_millicores : ℕ
  pub cgroups : List CgroupEntry

-- A tenth of the system, and half a core at least.
unfoldable pub user_quota : ℕ → ℕ
user_quota num_cpu =
    let total_quota = num_cpu * default_period in
    let quota = total_quota / 10 in
    if ltb quota (default_period / 2) then default_period / 2 else quota

unfoldable pub default_cgroups : ℕ → List CgroupEntry
unfolding user_quota
default_cgroups num_cpu =
    (record {
      path = codes "user";
      shares = some 1024;
      quota = some (user_quota num_cpu);
      period = some default_period;
      swappiness = none;
    })
    ∷ (record {
      path = codes "system.slice";
      shares = some 1024;
      quota = none;
      period = none;
      swappiness = some 0;
    })
    ∷ (record {
      path = codes "kube-pods";
      shares = some 2;
      quota = none;
      period = none;
      swappiness = some 20;
    })
    ∷ []

unfoldable pub default_config : ℕ → Bool → CgroupConfig
default_config num_cpu is_master =
    let config : CgroupConfig = record {
      enabled = true;
      auto = true;
      kube_reserved_millicores = 0;
      kube_system_millicores = 0;
      cgroups = default_cgroups num_cpu;
    } in
    if leb num_cpu 4 then config else record config {
      kube_reserved_millicores = if is_master then 1800 else 800;
      kube_system_millicores = num_cpu * 1000 / 10 + 200;
    }
