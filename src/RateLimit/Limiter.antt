-- ===== src/RateLimit/Limiter.antt =====
-- crates/gateway-ratelimit/src/limiter.rs: the two layers under a named policy. The map of policies
-- is the list of its entries; the readings of the clocks that one call makes are the record
-- `Reading`.
pub mod Laws
pub mod Known
use stateform.Prelude.{
  ℕ, ◌/◌, Bool, true, false, Option, none, some, List, [], ◌∷◌, ◌++◌, min, if◌then◌else◌,
}
use stateform.Prelude.Text.{Str, codes, str_eq, show_nat}
use stateform.Prelude.Words.{u64_max}
use stateform.Config.Schema.{
  DistributedRateLimitConfig, GatewayConfig, RateLimitMiddlewareRef, RateLimitPolicy,
}
use stateform.Http.{HeaderApi}
use stateform.Auth.Context.{AuthContext}
use stateform.RateLimit.Key.{derive_key}
use stateform.RateLimit.Float.{FloatApi}
use stateform.RateLimit.L1Local as L1
use stateform.RateLimit.L1Local.{L1LocalLimiter}
use stateform.RateLimit.L2Redis as L2
use stateform.RateLimit.L2Redis.{
  ScriptApi, L2Outcome, RateLimitError, redis, unknown_policy, Result, ok, err,
}

pub data DeniedBy : Type 0 where
  l1_local l2_distributed : DeniedBy

pub record RateLimitOutcome : Type 0 where
  pub allowed : Bool
  pub remaining : ℕ
  pub limit : ℕ
  pub retry_after_ms : ℕ
  pub denied_by : Option DeniedBy

unfoldable pub to_headers : RateLimitOutcome → List (Str × Str)
to_headers o =
    ((codes "X-RateLimit-Limit", show_nat o.limit)
      ∷ (codes "X-RateLimit-Remaining", show_nat o.remaining)
      ∷ [])
    ++ (if o.allowed then [] else ((codes "Retry-After", show_nat (o.retry_after_ms / 1000)) ∷ []))

-- What a route without a limit gets.
abbrev pub unlimited : RateLimitOutcome
unlimited = record {
  allowed = true;
  remaining = u64_max;
  limit = u64_max;
  retry_after_ms = 0;
  denied_by = none;
}

unfoldable pub estimate_refill_ms : ℕ → ℕ
estimate_refill_ms capacity = 1000

module _ (f : FloatApi) where
  pub record Policy : Type 0 where
    pub l1 : L1LocalLimiter f
    pub l2 : DistributedRateLimitConfig

  pub record RateLimiter : Type 0 where
    pub policies : List (Str × Policy)

  -- What one call reads: the clock where a bucket is made, where a token is taken and where the rest
  -- is counted, the Unix time, and a random number.
  pub record Reading : Type 0 where
    pub made : ℕ
    pub taken : ℕ
    pub counted : ℕ
    pub unix : f.F
    pub rand : ℕ

  unfoldable pub find_policy : List (Str × Policy) → Str → Option Policy
  unfolding str_eq
  find_policy [] name = none
  find_policy ((n, p) ∷ policies) name = if str_eq n name then some p else find_policy policies name

  -- The entry of a name, with the local limiter as a call left it.
  unfoldable pub set_l1 : List (Str × Policy) → Str → L1LocalLimiter f → List (Str × Policy)
  unfolding str_eq
  set_l1 [] name l = []
  set_l1 ((n, p) ∷ policies) name l =
      if str_eq n name then (n, record p { l1 = l }) ∷ policies else (n, p) ∷ set_l1 policies name l

module _ (f : FloatApi) (s : ScriptApi f) where
  -- A policy on top of those that follow it, if its connection comes to be.
  unfoldable pub add_policy :
      Option Str
      → Str
      → RateLimitPolicy
      → Result (List (Str × Policy f))
      → Result (List (Str × Policy f))
  unfolding L1.new
  add_policy (some e) name cfg rest = err (redis e)
  add_policy none name cfg (err e) = err e
  add_policy none name cfg (ok rest) =
      ok ((name, record { l1 = L1.new f cfg.local; l2 = cfg.distributed }) ∷ rest)

  -- The loop of `new`.
  unfoldable pub new_policies : Str → List (Str × RateLimitPolicy) → Result (List (Str × Policy f))
  unfolding add_policy
  new_policies redis_url [] = ok []
  new_policies redis_url ((name, cfg) ∷ policies) =
      add_policy (s.connect redis_url) name cfg (new_policies redis_url policies)

  abbrev pub with_policies : Result (List (Str × Policy f)) → Result (RateLimiter f)
  with_policies (err e) = err e
  with_policies (ok policies) = ok (record { policies = policies })

  unfoldable pub new : GatewayConfig → Result (RateLimiter f)
  unfolding new_policies
  new cfg = with_policies (new_policies cfg.rate_limiting.redis_url cfg.rate_limiting.policies)

  -- What the second layer makes of a request that the first one has let through.
  unfoldable pub after_l2 : ℕ → ℕ → L2Outcome → RateLimitOutcome
  after_l2 limit remaining l2 =
      if l2.allowed
      then record {
        allowed = true;
        remaining = min remaining l2.remaining;
        limit = limit;
        retry_after_ms = 0;
        denied_by = none;
      }
      else record {
        allowed = false;
        remaining = 0;
        limit = limit;
        retry_after_ms = l2.retry_after_ms;
        denied_by = some l2_distributed;
      }

  unfoldable pub denied_by_l1 : ℕ → RateLimitOutcome
  unfolding estimate_refill_ms
  denied_by_l1 limit = record {
    allowed = false;
    remaining = 0;
    limit = limit;
    retry_after_ms = estimate_refill_ms limit;
    denied_by = some l1_local;
  }

  -- What follows the first layer's answer: the outcome, and the server afterwards. Only a request that
  -- it let through gets to the server.
  unfoldable pub after_l1 :
      Bool
      → ℕ
      → ℕ
      → DistributedRateLimitConfig
      → Str
      → Reading f
      → s.Conn
      → RateLimitOutcome × s.Conn
  unfolding L2.check after_l2 denied_by_l1
  after_l1 true limit remaining l2 key r conn =
      let answer = L2.check f s l2 key r.unix r.rand conn in
      (after_l2 limit remaining answer.0, answer.1)
  after_l1 false limit remaining l2 key r conn = (denied_by_l1 limit, conn)

  -- One policy and key: the outcome, the local limiter and the server afterwards.
  unfoldable pub check_policy :
      Policy f → Str → Reading f → s.Conn → RateLimitOutcome × L1LocalLimiter f × s.Conn
  unfolding L1.check L1.remaining after_l1
  check_policy p key r conn =
      let l1 = L1.check f p.l1 key r.made r.taken in
      let remaining = L1.remaining f l1.1 key r.counted in
      let answer = after_l1 l1.0 (L1.capacity f p.l1) remaining p.l2 key r conn in
      (answer.0, l1.1, answer.1)

module _ (h : HeaderApi) (Value : Type 0) (f : FloatApi) (s : ScriptApi f) where
  unfoldable pub with_policy :
      RateLimiter f
      → Str
      → Reading f
      → s.Conn
      → Str
      → Option (Policy f)
      → Result RateLimitOutcome × RateLimiter f × s.Conn
  unfolding check_policy set_l1
  with_policy rl key r conn name none = (err (unknown_policy name), rl, conn)
  with_policy rl key r conn name (some p) =
      let answer = check_policy f s p key r conn in
      (ok answer.0, record { policies = set_l1 f rl.policies name answer.1 }, answer.2)

  unfoldable pub check :
      RateLimiter f
      → Reading f
      → s.Conn
      → Option RateLimitMiddlewareRef
      → Str
      → Option (AuthContext Value)
      → h.HeaderMap
      → Result RateLimitOutcome × RateLimiter f × s.Conn
  unfolding derive_key find_policy with_policy
  check rl r conn none route_id auth_ctx headers = (ok unlimited, rl, conn)
  check rl r conn (some rl_ref) route_id auth_ctx headers =
      with_policy rl (derive_key h Value route_id auth_ctx headers) r conn rl_ref.policy
        (find_policy f rl.policies rl_ref.policy)
