-- ===== src/Utils.antt =====
-- lib/utils: writing a file by way of a temporary one (utils.go) and retrying (retry.go).
pub mod SafeFile
pub mod Retry
