-- ===== src/Tests.antt =====
-- The theorems at concrete inputs that meet their hypotheses, and runs of the program's functions.
mod Etcd
mod Leader
mod Utils
mod Box
mod Cgroup
mod Users
mod Variables
mod Flag
mod Launch
mod Configs
mod Cluster
mod Start
mod Resolver
mod Service
mod Init
mod Restore
mod EnvFile
mod Check
mod Boot
mod Enter
mod Devices
mod CgroupMounts
mod Required
mod Scopes
mod Monitoring
mod Agent
mod Udev
mod UserCgroup
