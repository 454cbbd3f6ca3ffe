-- ===== src/Config.antt =====
-- crates/gateway-config: the configuration and its checks.
pub mod Schema
pub mod Validation
pub mod Watcher
