-- ===== src/Tests/Cgroup.antt =====
-- Machines of one and of eight cores.
use planet.Base.{◌≡◌, refl, true, false}
use planet.Cgroup.{default_config, user_quota}
use planet.Cgroup.Bounds.{reserved}

eight_cores : (user_quota 8 ≡ 80000) × (reserved 8 true ≡ 2800) × (reserved 8 false ≡ 1800)
unfolding default_config user_quota
eight_cores = (refl, refl, refl)
