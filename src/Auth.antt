-- ===== src/Auth.antt =====
-- crates/gateway-auth: who a request comes from.
pub mod Context
pub mod Error
pub mod ApiKey
pub mod Mtls
pub mod Jwt
pub mod Pipeline
