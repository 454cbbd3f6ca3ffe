-- ===== src/Tests.antt =====
-- Concrete instances of the parameters, and the theorems at concrete inputs.
mod Fixtures
mod DashMap
mod Config
mod Upstream
mod Router
mod Cache
mod RateLimit
mod Auth
mod Floats
mod Gateway
