-- ===== src/Gateway.antt =====
-- crates/gateway-core: a request's way through the gateway.
pub mod Response
pub mod Concurrency
pub mod Shutdown
pub mod Pipeline
pub mod Server
pub mod Gated
