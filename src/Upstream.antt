-- ===== src/Upstream.antt =====
-- crates/gateway-core/src/upstream.rs: endpoints, their selection, and the proxying of a request.
pub mod Health
pub mod Select
pub mod Retry
pub mod Pool
pub mod Poller
