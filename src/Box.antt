-- ===== src/Box.antt =====
-- lib/box/cfg.go: the configuration of the container, as it is read from command-line flags.
pub mod Mounts
pub mod Overrides
pub mod EnvFile
pub mod Expansion
pub mod Devices
pub mod DeviceFlags
pub mod Files
pub mod Container
pub mod Boot
pub mod Enter
pub mod UserCgroup
pub mod CgroupMounts
