-- ===== src/Cgroup/Scopes.antt =====
-- `cleanSystemdScopes` of tool/planet/cgroup.go: systemd scopes that hold no process are stopped. `base` stands
-- for Go's `filepath.Base`.
pub mod Spared
use planet.Utils.SafeFile.{safe_write}
use planet.Trace.{ok, Exec, err, Result}
use planet.Strings.{has_suffix, has_prefix}
use planet.Strings.Decimal.{itoa}
use planet.Cgroup.{CgroupConfig}
use planet.Os.{Disk}
use planet.Base.{ℕ, Bool, ◌&&◌, List, [], ◌∷◌, ◌++◌, ltb, if◌then◌else◌, Text, codes, is_empty}

-- A directory that the walk visits, with its name and whether it is older than a minute.
pub record Visited : Type 0 where
  pub path : Text
  pub name : Text
  pub is_old : Bool

unfoldable pub is_run_scope : Visited → Bool
unfolding has_prefix has_suffix
is_run_scope v = has_prefix (codes "run-") v.name && has_suffix (codes ".scope") v.name && v.is_old

-- The walk ends at the first error, with the paths it has.
unfoldable pub walk : List (Result Visited) → List Text
unfolding is_run_scope
walk [] = []
walk (err e ∷ _) = []
walk (ok v ∷ vs) = let rest = walk vs in if is_run_scope v then v.path ∷ rest else rest

-- The units that systemd is asked to stop; `pids` is what reading the process list of a path gives. That a
-- unit cannot be stopped is only logged.
unfoldable pub stop_empty : (Text → Text) → (Text → Result Text) → List Text → List Text
stop_empty base pids [] = []
stop_empty base pids (p ∷ ps) = elim (pids p) [
  | err e ↦ stop_empty base pids ps
  | ok listed ↦
      let rest = stop_empty base pids ps in if is_empty listed then base p ∷ rest else rest
]

unfoldable pub clean_systemd_scopes :
    (Text → Text)
    → (Text → Result Text)
    → Result (Unit {0})
    → List (Result Visited)
    → Result (List Text)
unfolding walk stop_empty
clean_systemd_scopes base pids (err e) visited = err e
clean_systemd_scopes base pids (ok _) visited = ok (stop_empty base pids (walk visited))

-- `writeKubeReservedEnvironment`: the settings in the order of their names, as a template ranges over a map.
abbrev setting : Text → Text → Text
setting key value = key ++ b'=' ∷ 34 ∷ value ++ 34 ∷ 10 ∷ []

abbrev when_positive : ℕ → Text → Text
when_positive n key = if ltb 0 n then setting key (codes "cpu=" ++ (itoa n ++ codes "m")) else []

unfoldable pub kube_reserved_environment : CgroupConfig → Text
unfolding itoa
kube_reserved_environment config =
    setting (codes "KUBE_CGROUP_ROOT") (codes "/kube-pods")
    ++ (when_positive config.kube_reserved_millicores (codes "KUBE_RESERVED")
        ++ (when_positive config.kube_system_millicores (codes "KUBE_SYSTEM_RESERVED") ++ 10 ∷ []))

unfoldable pub write_kube_reserved_environment : Text → CgroupConfig → Exec Disk (Unit {0})
unfolding safe_write
write_kube_reserved_environment temp config =
    safe_write temp (codes "/run/kubernetes-reserved.env") (kube_reserved_environment config)
