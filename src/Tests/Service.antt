-- ===== src/Tests/Service.antt =====
-- Restarts of two clients of which one is inactive, and cgroups of which one cannot be applied.
use planet.Cgroup.{default_cgroups, CgroupEntry, CgroupConfig}
use planet.Systemd.{Host}
use planet.Trace.{ok, system, Error, Result}
use planet.Cgroup.Applying.Complete.{apply_config_lem, some_fails, HasPath}
use planet.Cgroup.Applying.{is_error, gathered, apply_config, Applied}
use planet.Os.{calm}
use planet.Base.{
  ◌≡◌, refl, true, false, ◌||◌, Option, none, some, [], ◌∷◌, ◌++◌, if◌then◌else◌, Text, codes,
  text_eq, All,
}

abbrev host : Host
host = record { disk = calm λ q. none; commands = []; answers = some (system 1) ∷ [] }

abbrev state : Text → Text
state s = if text_eq s (codes "flanneld.service") then codes "inactive" else codes "active"

abbrev fresh : Applied
fresh = record { tried = []; failed = false }

abbrev written : CgroupConfig → Result (Unit {0})
written c = ok tt

abbrev refused : CgroupEntry → Option Error
refused e = some (system 1)

abbrev taken : CgroupEntry → Option Error
taken e = none

abbrev reserved : CgroupConfig → Option Error
reserved c = none

abbrev eight : CgroupConfig
eight = record {
  enabled = true;
  auto = true;
  kube_reserved_millicores = 0;
  kube_system_millicores = 0;
  cgroups = default_cgroups 8;
}

have_paths : All HasPath eight.cgroups
unfolding default_cgroups
have_paths = (refl, (refl, (refl, tt)))

apply_config_example :
    ((apply_config written refused taken reserved eight fresh).1.tried ≡ [] ++ eight.cgroups)
    × ((apply_config written refused taken reserved eight fresh).0
        ≡ gathered ((false || some_fails refused taken eight.cgroups) || is_error (reserved eight)))
apply_config_example = apply_config_lem written refused taken reserved eight fresh refl have_paths
