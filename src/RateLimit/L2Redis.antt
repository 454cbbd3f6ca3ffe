-- ===== src/RateLimit/L2Redis.antt =====
-- crates/gateway-ratelimit/src/l2_redis.rs: the limits that Redis counts. The two Lua scripts are
-- functions of what is stored under the key; Redis runs a script at once. Lua's numbers are `f64`.
-- The invocation of a script over the network is a parameter, as are the sorted sets of Redis.
pub mod Window
pub mod TokenBucket
use stateform.Prelude.{
  ℕ, ◌+◌, ◌-◌, ◌*◌, ◌/◌, ◌^◌, ◌≡◌, ◌++◌, Bool, true, false, ltb, ◌==◌, Option, none, some, List, [],
  ◌∷◌, if◌then◌else◌,
}
use stateform.Prelude.Text.{Str, codes, show_nat}
use stateform.Config.Schema.{Duration, DistributedRateLimitConfig, token_bucket, sliding_window}
use stateform.RateLimit.Float.{ℤ, pos, negsuc, clamp, FloatApi}

-- `RateLimitError`
pub data RateLimitError : Type 0 where
  exceeded : RateLimitError
  redis script unknown_policy config : Str → RateLimitError

pub data Result (A : Type 0) : Type 0 where
  ok : A → Result A
  err : RateLimitError → Result A

module _ (f : FloatApi) where
  -- What a hash holds under `tokens` and `last_refill`.
  pub record Stored : Type 0 where
    pub tokens : f.F
    pub last_refill : f.F

  abbrev pub tokens_or : f.F → Option Stored → f.F
  tokens_or capacity none = capacity
  tokens_or capacity (some s) = s.tokens

  abbrev pub last_refill_or : f.F → Option Stored → f.F
  last_refill_or now none = now
  last_refill_or now (some s) = s.last_refill

  -- The reply, what is stored, and the seconds until it expires. There is no reply where EXPIRE
  -- refuses those seconds: the error ends the script, and what HMSET has stored stays.
  pub record BucketRun : Type 0 where
    pub reply : Option (List ℤ)
    pub stored : Stored
    pub ttl : f.F

  unfoldable pub available_now : f.F → f.F → f.F → Option Stored → f.F
  available_now capacity refill_rate now data_ =
      let elapsed = f.maximum (f.of_nat 0) (f.sub now (last_refill_or now data_)) in
      f.minimum capacity (f.add (tokens_or capacity data_) (f.mul elapsed refill_rate))

  -- `redis.call('EXPIRE', key, ttl)` and the return, where `expires` says whether EXPIRE takes the
  -- number: one that is not finite is no integer to it.
  abbrev pub after_expire : (f.F → Bool) → f.F → List ℤ → Option (List ℤ)
  after_expire expires ttl result = if expires ttl then some result else none

  -- The test `tokens >= 1`, and what the script does after it.
  unfoldable pub answer_bucket : (f.F → Bool) → f.F → f.F → f.F → f.F → Bool → BucketRun
  answer_bucket expires capacity refill_rate now tokens true =
      let left = f.sub tokens (f.of_nat 1) in
      let ttl = f.add (f.ceil (f.div capacity refill_rate)) (f.of_nat 10) in
      record {
        reply = after_expire expires ttl (pos 1 ∷ f.to_int (f.floor left) ∷ pos 0 ∷ []);
        stored = record { tokens = left; last_refill = now };
        ttl = ttl;
      }
  answer_bucket expires capacity refill_rate now tokens false =
      let deficit = f.sub (f.of_nat 1) tokens in
      let retry_after_ms = f.ceil (f.mul (f.div deficit refill_rate) (f.of_nat 1000)) in
      let ttl = f.add (f.ceil (f.div capacity refill_rate)) (f.of_nat 10) in
      record {
        reply =
            after_expire expires ttl
              (pos 0 ∷ f.to_int (f.floor tokens) ∷ f.to_int retry_after_ms ∷ []);
        stored = record { tokens = tokens; last_refill = now };
        ttl = ttl;
      }

  -- `TOKEN_BUCKET_SCRIPT`
  unfoldable pub token_bucket_script : (f.F → Bool) → ℕ → ℕ → f.F → Option Stored → BucketRun
  unfolding available_now answer_bucket
  token_bucket_script expires capacity_arg refill_rate_arg now data_ =
      let capacity = f.of_nat capacity_arg in
      let refill_rate = f.of_nat refill_rate_arg in
      let tokens = available_now capacity refill_rate now data_ in
      answer_bucket expires capacity refill_rate now tokens (f.le (f.of_nat 1) tokens)

-- The commands of Redis on a sorted set that the other script calls.
pub record ZSetApi (f : FloatApi) : Type 1 where
  pub ZSet : Type 0
  -- ZREMRANGEBYSCORE from -inf to the score
  pub zremrangebyscore : f.F → ZSet → ZSet
  pub zcard : ZSet → ℕ
  pub zadd : f.F → Str → ZSet → ZSet
  -- The score of ZRANGE 0 0 WITHSCORES, if there is an entry.
  pub zrange_first : ZSet → Option f.F

module _ (f : FloatApi) (z : ZSetApi f) where
  -- The reply, the set, and the seconds until it expires.
  pub record WindowRun : Type 0 where
    pub reply : List ℤ
    pub stored : z.ZSet
    pub ttl : ℕ

  abbrev pub retry_after : f.F → f.F → Option f.F → ℤ
  retry_after window now none = pos 0
  retry_after window now (some oldest_ts) =
      f.to_int (f.ceil (f.mul (f.sub (f.add oldest_ts window) now) (f.of_nat 1000)))

  -- The test `count < max_requests`, and what the script does after it.
  unfoldable pub answer_window : ℕ → ℕ → f.F → Str → z.ZSet → ℕ → Bool → WindowRun
  answer_window max_requests window now req_id live count true = record {
    reply = pos 1 ∷ pos (max_requests - count - 1) ∷ pos 0 ∷ [];
    stored = z.zadd now req_id live;
    ttl = window + 5;
  }
  answer_window max_requests window now req_id live count false = record {
    reply =
        pos 0
        ∷ pos (max_requests - count)
        ∷ retry_after (f.of_nat window) now (z.zrange_first live)
        ∷ [];
    stored = live;
    ttl = window + 5;
  }

  -- `SLIDING_WINDOW_SCRIPT`
  unfoldable pub sliding_window_script : ℕ → ℕ → f.F → Str → z.ZSet → WindowRun
  unfolding answer_window
  sliding_window_script max_requests window now req_id stored =
      let window_start = f.sub now (f.of_nat window) in
      let live = z.zremrangebyscore window_start stored in
      let count = z.zcard live in
      answer_window max_requests window now req_id live count (ltb count max_requests)

pub record L2Outcome : Type 0 where
  pub allowed : Bool
  pub remaining : ℕ
  pub retry_after_ms : ℕ

-- The invocation of the scripts under a key: the reply or the message of an error, and the server's
-- state. The arguments are those of the scripts.
pub record ScriptApi (f : FloatApi) : Type 1 where
  pub Conn : Type 0
  -- `redis::Client::open` with `ConnectionManager::new`: the message of a failure.
  pub connect : Str → Option Str
  pub token_bucket : Str → ℕ → ℕ → f.F → Conn → (Option (List ℤ) × Str) × Conn
  pub sliding_window : Str → ℕ → ℕ → f.F → Str → Conn → (Option (List ℤ) × Str) × Conn

abbrev pub is_one : ℤ → Bool
is_one (pos n) = n == 1
is_one (negsuc n) = false

-- `result.get(i).copied().unwrap_or(default)`, by the three places.
unfoldable pub outcome_of : List ℤ → L2Outcome
outcome_of [] = record { allowed = true; remaining = 0; retry_after_ms = 0 }
outcome_of (a ∷ []) = record { allowed = is_one a; remaining = 0; retry_after_ms = 0 }
outcome_of (a ∷ r ∷ []) = record { allowed = is_one a; remaining = clamp r; retry_after_ms = 0 }
outcome_of (a ∷ r ∷ t ∷ rest) = record {
  allowed = is_one a;
  remaining = clamp r;
  retry_after_ms = clamp t;
}

abbrev pub read_reply : Option (List ℤ) × Str → Result L2Outcome
unfolding outcome_of
read_reply (some result, message) = ok (outcome_of result)
read_reply (none, message) = err (script message)

-- On an error the request is allowed.
unfoldable pub or_open : Result L2Outcome → L2Outcome
or_open (ok outcome) = outcome
or_open (err e) = record { allowed = true; remaining = 0; retry_after_ms = 0 }

abbrev pub as_secs : Duration → ℕ
as_secs d = d / 10 ^ 9

module _ (f : FloatApi) (s : ScriptApi f) where
  abbrev pub request_id : Str → f.F → ℕ → Str
  request_id key now rand = key ++ codes ":" ++ f.to_string now ++ codes ":" ++ show_nat rand

  -- `now` is the clock's Unix time, and `rand` what `rand_u32` gives.
  unfoldable pub check_inner :
      DistributedRateLimitConfig → Str → f.F → ℕ → s.Conn → Result L2Outcome × s.Conn
  unfolding read_reply
  check_inner (token_bucket capacity refill_rate) key now rand conn =
      let run = s.token_bucket key capacity refill_rate now conn in (read_reply run.0, run.1)
  check_inner (sliding_window max_requests window) key now rand conn =
      let req_id = request_id key now rand in
      let run = s.sliding_window key max_requests (as_secs window) now req_id conn in
      (read_reply run.0, run.1)

  unfoldable pub check : DistributedRateLimitConfig → Str → f.F → ℕ → s.Conn → L2Outcome × s.Conn
  unfolding check_inner or_open
  check cfg key now rand conn =
      let answer = check_inner cfg key now rand conn in (or_open answer.0, answer.1)
