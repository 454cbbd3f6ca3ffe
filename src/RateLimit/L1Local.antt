-- ===== src/RateLimit/L1Local.antt =====
-- crates/gateway-ratelimit/src/l1_local.rs: token buckets in the process. `Instant::now()` is an
-- argument, in nanoseconds; a duration between instants is 0 where the second is the earlier one.
-- The map of buckets is a function from keys.
pub mod Burst
pub mod Capacity
use stateform.Prelude.{ℕ, ◌-◌, Bool, true, false, Option, none, some, if◌then◌else◌}
use stateform.Prelude.Text.{Str, str_eq}
use stateform.Config.Schema.{TokenBucketConfig}
use stateform.RateLimit.Float.{FloatApi}

module _ (f : FloatApi) where
  pub record Bucket : Type 0 where
    pub tokens : f.F
    pub capacity : f.F
    pub refill_rate : f.F
    pub last_refill : ℕ

  unfoldable pub new_bucket : TokenBucketConfig → ℕ → Bucket
  new_bucket cfg now = record {
    tokens = f.of_nat cfg.capacity;
    capacity = f.of_nat cfg.capacity;
    refill_rate = f.of_nat cfg.refill_rate;
    last_refill = now;
  }

  -- `(self.tokens + elapsed * self.refill_rate).min(self.capacity)`
  unfoldable pub refilled : Bucket → ℕ → f.F
  refilled b now =
      f.minimum (f.add b.tokens (f.mul (f.secs (now - b.last_refill)) b.refill_rate)) b.capacity

  -- The test `self.tokens >= 1.0`, and what it leaves.
  abbrev pub take_if : Bool → Bucket → ℕ → f.F → Bool × Bucket
  take_if true b now tokens =
      (true, record b { tokens = f.sub tokens (f.of_nat 1); last_refill = now })
  take_if false b now tokens = (false, record b { tokens = tokens; last_refill = now })

  unfoldable pub consume : Bucket → ℕ → Bool × Bucket
  unfolding refilled
  consume b now = let tokens = refilled b now in take_if (f.le (f.of_nat 1) tokens) b now tokens

  unfoldable pub available : Bucket → ℕ → ℕ
  unfolding refilled
  available b now = f.as_u64 (f.floor (refilled b now))

  pub record L1LocalLimiter : Type 0 where
    pub buckets : Str → Option Bucket
    pub config : TokenBucketConfig

  unfoldable pub new : TokenBucketConfig → L1LocalLimiter
  new config = record { buckets = λ key. none; config = config }

  unfoldable pub insert : Str → Bucket → (Str → Option Bucket) → Str → Option Bucket
  unfolding str_eq
  insert key b buckets k = if str_eq key k then some b else buckets k

  abbrev pub or_new : Option Bucket → Bucket → Bucket
  or_new none b = b
  or_new (some a) b = a

  -- `made` is the clock where a bucket is made, `now` where a token is taken.
  unfoldable pub check : L1LocalLimiter → Str → ℕ → ℕ → Bool × L1LocalLimiter
  unfolding new_bucket consume insert
  check l key made now =
      let taken = consume (or_new (l.buckets key) (new_bucket l.config made)) now in
      (taken.0, record l { buckets = insert key taken.1 l.buckets })

  unfoldable pub available_or : ℕ → ℕ → Option Bucket → ℕ
  unfolding available
  available_or capacity now none = capacity
  available_or capacity now (some b) = available b now

  unfoldable pub remaining : L1LocalLimiter → Str → ℕ → ℕ
  unfolding available_or
  remaining l key now = available_or l.config.capacity now (l.buckets key)

  abbrev pub capacity : L1LocalLimiter → ℕ
  capacity l = l.config.capacity
