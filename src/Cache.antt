-- ===== src/Cache.antt =====
-- crates/gateway-cache: the response cache of the gateway.
pub mod Control
pub mod Key
pub mod Entry
pub mod Local
pub mod Redis
pub mod Layer
