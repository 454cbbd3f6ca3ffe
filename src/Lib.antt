-- ===== src/Lib.antt =====
-- Stateform is an API gateway. Its data plane, the Rust workspace under crates/, takes a request
-- through a routing table, authentication, rate limits, a response cache and a pool of upstream
-- endpoints. This library models the configuration and its reloads, the router, the authentication,
-- the rate limits, the concurrency limits, the response cache, the upstream pools with their health
-- checks, the shutdown and the request pipeline, from the sources as they stand.
--
-- Parts and files:
--   Config.Schema      crates/gateway-config/src/schema.rs: the records that all crates read
--   Config.Validation  crates/gateway-config/src/validation.rs: `validate` and its passes
--   Config.Watcher     crates/gateway-config/src/hot_reload.rs: `ConfigWatcher`
--   Router.Trie        crates/gateway-router/src/trie.rs: the tries of exact and prefix routes
--   Router.Predicate   crates/gateway-router/src/predicate.rs: method and header predicates
--   Router.Table       crates/gateway-router/src/router.rs: `build`, `match_request`, `rebuild`;
--                      Router.Table.Spec says what a table promises of the list of routes alone
--   Upstream.Health    crates/gateway-core/src/upstream.rs: `EndpointState`, `mark_failure`,
--                      `mark_success`
--   Upstream.Select    the same file: `select_endpoint` and its three algorithms
--   Upstream.Retry     the same file: `send_with_retry`, backoff and jitter
--   Upstream.Pool      the same file: `UpstreamPool::send`, `update_ewma`, `UpstreamRegistry`
--   Upstream.Poller    crates/gateway-core/src/health.rs: the rounds of `health_check_loop`
--   Cache.Control      crates/gateway-cache/src/control.rs: `Cache-Control` and `Vary`
--   Cache.Key          crates/gateway-cache/src/key.rs: cache keys and storable headers
--   Cache.Entry        crates/gateway-cache/src/entry.rs: `CachedResponse`
--   Cache.Local        crates/gateway-cache/src/l1_local.rs: the bounded in-process map
--   Cache.Redis        crates/gateway-cache/src/l2_redis.rs: the shared cache
--   Cache.Layer        crates/gateway-cache/src/cache.rs: `lookup`, `store`, `invalidate`
--   Auth.Context       crates/gateway-auth/src/context.rs: the identity of a caller
--   Auth.Error         crates/gateway-auth/src/error.rs: `AuthError` and its statuses
--   Auth.ApiKey        crates/gateway-auth/src/api_key.rs: `ApiKeyProvider`
--   Auth.Mtls          crates/gateway-auth/src/mtls.rs: `MtlsProvider`
--   Auth.Jwt           crates/gateway-auth/src/jwt.rs: `JwtProvider` and its cache of keys
--   Auth.Pipeline      crates/gateway-auth/src/pipeline.rs: `AuthPipeline::run`
--   RateLimit.Float    the arithmetic on `f64` that the rate limits call, as a parameter
--   RateLimit.L1Local  crates/gateway-ratelimit/src/l1_local.rs: the token buckets in the process
--   RateLimit.L2Redis  crates/gateway-ratelimit/src/l2_redis.rs: the two Lua scripts and their replies
--   RateLimit.Limiter  crates/gateway-ratelimit/src/limiter.rs: `RateLimiter::check`
--   RateLimit.Key      crates/gateway-ratelimit/src/key.rs: `derive_key`
--   Gateway.Response   the refusal that concurrency.rs makes
--   Gateway.Concurrency  crates/gateway-core/src/concurrency.rs: `acquire` and the permits
--   Gateway.Shutdown   crates/gateway-core/src/shutdown.rs: `ShutdownCoordinator`
--   Gateway.Pipeline   crates/gateway-core/src/pipeline.rs: `handle`, over the interface `Stages`
--   Gateway.Gated      that interface with the limiter of Gateway.Concurrency as its gate
--   Gateway.Server     crates/gateway-core/src/server.rs: a connection's service in front of `handle`
--   Http               what is used of the crates http and regex, as parameters
--   Prelude            shared names, lists, texts and machine words
--   Tests              instances of the parameters and the theorems at concrete inputs
--
-- How they interact: `validate` checks a `GatewayConfig`, which the watcher holds and the router,
-- the registry, the limiter and the concurrency limiter are built from. `handle` takes a request
-- through a route, a permit, the authentication, the limit, the cache and the pool that the route
-- names, whose `send` selects an endpoint by its health and counts the request; the poller moves
-- that health. `handle` calls the other parts through `Stages`, a record of operations on one
-- shared state.
--
-- Conventions. A text is the list of its code points. A number of the source is a natural number,
-- and an operation that can wrap has its remainder written out. A `Duration` is its nanoseconds, a
-- `HashMap` of the configuration the list of its entries, an atomic field a plain field that one
-- step changes. What reads a clock takes the reading as an argument. Atomic operations are taken
-- one at a time; sequences of them are lists of steps. Log lines and metrics are left out.
--
-- A call of the local cache ends in `Ended`: it returns, or it waits for ever for a lock of its
-- own. A sequence of calls stops at the first that does not return.
--
-- Loops are structural recursion. Only the walks through the trie take fuel, one more than the
-- length of the path, since each step consumes a character of it or ends; `fuel_for` gives it in
-- every call, and Router.Trie.Segments shows that it is enough; and the wait of the shutdown,
-- which has one round more than the pauses that fit into its timeout.
--
-- Parameters, whose code is not in the repository: http's header maps, regex, DashMap with the
-- laws `MapLaws`, the Redis client with the law `RedisLaws` and, for its sorted sets, `ZSetLaws`,
-- serde_json and serde_yaml, jsonwebtoken, whether EXPIRE takes a number, tokio's semaphores with
-- `SemaphoreLaws`, floating-point numbers with `OrderLaws` and `ExactLaws`, and the HTTP clients,
-- which give the reply of each attempt, each health check and each fetch of keys. What two locked
-- regions of one call meet of the state that other tasks change is an argument too. Tests
-- instantiates all of them.
--
-- Not modelled: sockets, TLS, accept loops, timers and the start of the process, metrics, and the
-- control plane in Go. `rewrite_uri` and `clone_request` only build HTTP values.
pub mod Auth
pub mod Cache
pub mod Config
pub mod Gateway
pub mod Http
pub mod Prelude
pub mod RateLimit
pub mod Router
pub mod Tests
pub mod Upstream
