-- ===== src/RateLimit.antt =====
-- crates/gateway-ratelimit: how many requests an identity may send.
pub mod Key
pub mod Float
pub mod L1Local
pub mod L2Redis
pub mod Limiter
