-- ===== src/Config/Schema.antt =====
-- crates/gateway-config/src/schema.rs: the configuration that every crate reads.
-- A `HashMap` is the list of its entries, in the order of its iteration; a `Duration` is its number
-- of nanoseconds; an `f64` that is only stored is its bit pattern.
use stateform.Prelude.{ℕ, Bool, Option, List}
use stateform.Prelude.Text.{Str}

pub record F64 : Type 0 where
  pub bits : ℕ

abbrev pub Duration : Type 0
Duration = ℕ

pub record TlsConfig : Type 0 where
  pub cert_path : Str
  pub key_path : Str
  pub client_ca_path : Option Str

pub record ListenerConfig : Type 0 where
  pub bind : Str
  pub tls : Option TlsConfig
  pub max_body_bytes : ℕ
  pub keepalive : Duration
  pub max_concurrent_requests : ℕ
  pub concurrency_acquire_timeout_ms : ℕ

pub record EndpointConfig : Type 0 where
  pub address : Str
  pub weight : ℕ
  pub active : Bool

pub data LoadBalancingConfig : Type 0 where
  weighted_round_robin : LoadBalancingConfig
  -- `ewma_alpha`
  least_connections : F64 → LoadBalancingConfig
  -- `hash_header`, `virtual_nodes`
  consistent_hashing : Str → ℕ → LoadBalancingConfig

pub record HealthCheckConfig : Type 0 where
  pub path : Str
  pub interval : Duration
  pub timeout : Duration
  pub healthy_threshold : ℕ
  pub unhealthy_threshold : ℕ

pub record TimeoutConfig : Type 0 where
  pub connect : Duration
  pub request : Duration
  pub idle : Duration

pub record RetryConfig : Type 0 where
  pub max_attempts : ℕ
  pub base_backoff : Duration
  pub on_statuses : List ℕ

pub record UpstreamConfig : Type 0 where
  pub endpoints : List EndpointConfig
  pub load_balancing : LoadBalancingConfig
  pub health_check : Option HealthCheckConfig
  pub timeouts : TimeoutConfig
  pub retry : Option RetryConfig

pub data PathMatch : Type 0 where
  prefix exact regex : Str → PathMatch

pub record RouteMatch : Type 0 where
  pub path : PathMatch
  pub method : Option Str
  pub headers : List (Str × Str)

pub record AuthMiddlewareConfig : Type 0 where
  pub jwt : Bool
  pub api_key : Bool
  pub mtls : Bool

pub record RateLimitMiddlewareRef : Type 0 where
  pub policy : Str

pub record CacheMiddlewareConfig : Type 0 where
  pub ttl : Duration
  pub read_only : Bool

pub record MiddlewareConfig : Type 0 where
  pub auth : Option AuthMiddlewareConfig
  pub rate_limit : Option RateLimitMiddlewareRef
  pub cache : Option CacheMiddlewareConfig

pub record HeaderMutations : Type 0 where
  pub request_set : List (Str × Str)
  pub request_remove : List Str
  pub response_set : List (Str × Str)

pub record RouteConfig : Type 0 where
  pub id : Str
  pub match_ : RouteMatch
  pub upstream : Str
  pub load_balancing : Option LoadBalancingConfig
  pub middleware : MiddlewareConfig
  pub headers : HeaderMutations
  pub max_concurrent_requests : Option ℕ

pub record TokenBucketConfig : Type 0 where
  pub capacity : ℕ
  pub refill_rate : ℕ

pub data DistributedRateLimitConfig : Type 0 where
  -- `capacity`, `refill_rate`
  token_bucket : ℕ → ℕ → DistributedRateLimitConfig
  -- `max_requests`, `window`
  sliding_window : ℕ → Duration → DistributedRateLimitConfig

pub record RateLimitPolicy : Type 0 where
  pub local : TokenBucketConfig
  pub distributed : DistributedRateLimitConfig

pub record RateLimitConfig : Type 0 where
  pub redis_url : Str
  pub policies : List (Str × RateLimitPolicy)

pub record CacheConfig : Type 0 where
  pub redis_url : Str
  pub l1_capacity : ℕ

pub record JwtConfig : Type 0 where
  pub jwks_url : Str
  pub audience : List Str
  pub issuers : List Str
  pub jwks_cache_ttl : Duration

pub record ApiKeyConfig : Type 0 where
  pub redis_key_prefix : Str
  pub redis_url : Str

pub record MtlsConfig : Type 0 where
  pub client_ca_path : Str
  pub required : Bool

pub record AuthConfig : Type 0 where
  pub jwt : JwtConfig
  pub api_keys : ApiKeyConfig
  pub mtls : MtlsConfig

pub record ObservabilityConfig : Type 0 where
  pub metrics_bind : Str

pub record ControlPlaneConfig : Type 0 where
  pub grpc_address : Str
  pub reconnect_interval : Duration

pub record GatewayConfig : Type 0 where
  pub listener : ListenerConfig
  pub upstreams : List (Str × UpstreamConfig)
  pub routes : List RouteConfig
  pub rate_limiting : RateLimitConfig
  pub cache : CacheConfig
  pub auth : AuthConfig
  pub observability : ObservabilityConfig
  pub control_plane : ControlPlaneConfig
