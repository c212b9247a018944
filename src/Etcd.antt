-- ===== src/Etcd.antt =====
-- tool/planet/etcd.go: the versions of the database on a node, and the upgrade and rollback of it.
pub mod Version
pub mod Upgrade
pub mod Gateway
pub mod Join
pub mod Init
pub mod Service
pub mod Restore
pub mod Enable
pub mod Cycle
