-- ===== src/RateLimit/L1Local/Burst.antt =====
-- crates/gateway-ratelimit/src/l1_local.rs: what a bucket lets through, and what it can hold.
use stateform.Prelude.{
  ℕ, zero, suc, ◌+◌, ◌-◌, ◌^◌, ◌≤◌, ◌<◌, ◌≡◌, refl, sym, ap, ap₂, ◌∙◌, Bool, true, false, leb, min,
  arith,
}
use stateform.Config.Schema.{TokenBucketConfig}
use stateform.RateLimit.Float.{FloatApi, ExactLaws}
use stateform.RateLimit.L1Local.{Bucket, new_bucket, refilled, take_if, consume}

abbrev one_if : Bool → ℕ
one_if true = 1
one_if false = 0

module _ (f : FloatApi) where
  -- How many of `k` requests at the reading `now` a bucket lets through.
  unfoldable pub granted : ℕ → Bucket f → ℕ → ℕ
  unfolding consume
  granted zero b now = 0
  granted (suc k) b now = one_if (consume f b now).0 + granted k (consume f b now).1 now

  -- A bucket with `n` tokens that was refilled at `now`.
  abbrev holding : TokenBucketConfig → ℕ → ℕ → Bucket f
  holding cfg n now = record {
    tokens = f.of_nat n;
    capacity = f.of_nat cfg.capacity;
    refill_rate = f.of_nat cfg.refill_rate;
    last_refill = now;
  }

module _ (f : FloatApi) (exact : ExactLaws f) where
  refilled-holding :
      (cfg : TokenBucketConfig) (n now : ℕ)
      → cfg.capacity < 2 ^ 53
      → n ≤ cfg.capacity
      → refilled f (holding f cfg n now) now ≡ f.of_nat n
  unfolding refilled
  refilled-holding cfg n now small fits =
      ap
        (λ t.
          f.minimum (f.add (f.of_nat n) (f.mul (f.secs t) (f.of_nat cfg.refill_rate)))
            (f.of_nat cfg.capacity))
        same_time
      ∙ ap (λ x. f.minimum x (f.of_nat cfg.capacity))
          (exact.add_no_time n (f.of_nat cfg.refill_rate))
      ∙ exact.minimum_of_nat n cfg.capacity (omega arith) small
      ∙ ap f.of_nat low
    where
      same_time : now - now ≡ 0
      same_time = omega arith

      low : min n cfg.capacity ≡ n
      low = omega arith

  consume-holding :
      (cfg : TokenBucketConfig) (n now : ℕ)
      → cfg.capacity < 2 ^ 53
      → n ≤ cfg.capacity
      → consume f (holding f cfg n now) now ≡ (leb 1 n, holding f cfg (n - 1) now)
  unfolding consume
  consume-holding cfg n now small fits =
      ap (λ x. take_if f (f.le (f.of_nat 1) x) (holding f cfg n now) now x)
        (refilled-holding cfg n now small fits)
      ∙ ap (λ b. take_if f b (holding f cfg n now) now (f.of_nat n))
          (exact.le_of_nat 1 n (omega arith) (omega arith))
      ∙ step n (omega arith)
    where
      step :
          (m : ℕ)
          → m < 2 ^ 53
          → take_if f (leb 1 m) (holding f cfg m now) now (f.of_nat m)
            ≡ (leb 1 m, holding f cfg (m - 1) now)
      step zero h = refl
      step (suc m) h =
          ap (λ b. take_if f b (holding f cfg (suc m) now) now (f.of_nat (suc m))) one_le
          ∙ ap (λ x. (true, record (holding f cfg (suc m) now) { tokens = x }))
              (exact.sub_of_nat m h)
          ∙ ap₂ (λ b k. (b, holding f cfg k now)) (sym one_le) pred
        where
          one_le : leb 1 (suc m) ≡ true
          one_le = ground arith

          pred : m ≡ suc m - 1
          pred = omega arith

  granted-holding :
      (cfg : TokenBucketConfig) (k n now : ℕ)
      → cfg.capacity < 2 ^ 53
      → n ≤ cfg.capacity
      → granted f k (holding f cfg n now) now ≡ min k n
  unfolding granted
  granted-holding cfg zero n now small fits = omega arith
  granted-holding cfg (suc k) n now small fits =
      ap (λ r. one_if r.0 + granted f k r.1 now) (consume-holding cfg n now small fits)
      ∙ ap (λ x. one_if (leb 1 n) + x) (granted-holding cfg k (n - 1) now small (omega arith))
      ∙ counted n
    where
      counted : (m : ℕ) → one_if (leb 1 m) + min k (m - 1) ≡ min (suc k) m
      counted m = ground arith

  -- With exact arithmetic below 2 ^ 53, of a burst of requests at the instant at which a bucket
  -- is made it lets through exactly as many as its capacity, or all of them if they are fewer.
  pub granted-min :
      (cfg : TokenBucketConfig) (k now : ℕ)
      → cfg.capacity < 2 ^ 53
      → granted f k (new_bucket f cfg now) now ≡ min k cfg.capacity
  unfolding new_bucket
  granted-min cfg k now small = granted-holding cfg k cfg.capacity now small (omega arith)
