-- ===== src/RateLimit/L1Local/Capacity.antt =====
-- crates/gateway-ratelimit/src/l1_local.rs: no bucket holds more than its policy's capacity.
use stateform.Prelude.{
  ℕ, ◌≡◌, refl, sym, ap, subst, ◌∙◌, Bool, true, false, Option, none, some, List, [], ◌∷◌,
  if◌then◌else◌,
}
use stateform.Prelude.Text.{Str, str_eq}
use stateform.Config.Schema.{TokenBucketConfig}
use stateform.RateLimit.Float.{FloatApi, OrderLaws}
use stateform.RateLimit.L1Local.{
  Bucket, new_bucket, refilled, take_if, consume, L1LocalLimiter, new, insert, or_new, check,
}

module _ (f : FloatApi) where
  -- A bucket of the policy, with at most its capacity in tokens.
  abbrev pub Within : TokenBucketConfig → Bucket f → Type 0
  Within cfg b =
      (f.le b.tokens (f.of_nat cfg.capacity) ≡ true) × (b.capacity ≡ f.of_nat cfg.capacity)

  abbrev pub AllWithin : L1LocalLimiter f → Type 0
  AllWithin l = (key : Str) (b : Bucket f) → l.buckets key ≡ some b → Within l.config b

  -- One call of `check` after the other: its key and its two readings of the clock.
  unfoldable pub checks : L1LocalLimiter f → List (Str × ℕ × ℕ) → L1LocalLimiter f
  unfolding check
  checks l [] = l
  checks l ((key, made, now) ∷ calls) = checks (check f l key made now).1 calls

module _ (f : FloatApi) (laws : OrderLaws f) where
  new_bucket-Within : (cfg : TokenBucketConfig) (now : ℕ) → Within f cfg (new_bucket f cfg now)
  unfolding new_bucket
  new_bucket-Within cfg now = (laws.le_refl (f.of_nat cfg.capacity), refl)

  take_if-Within :
      (cfg : TokenBucketConfig) (c : Bool) (b : Bucket f) (now : ℕ) (tokens : f.F)
      → b.capacity ≡ f.of_nat cfg.capacity
      → f.le tokens (f.of_nat cfg.capacity) ≡ true
      → Within f cfg (take_if f c b now tokens).1
  take_if-Within cfg true b now tokens same low = (
    laws.le_trans (f.sub tokens (f.of_nat 1)) tokens (f.of_nat cfg.capacity)
        (laws.sub_one_le tokens) low,
    same,
  )
  take_if-Within cfg false b now tokens same low = (low, same)

  consume-Within :
      (cfg : TokenBucketConfig) (b : Bucket f) (now : ℕ)
      → Within f cfg b
      → Within f cfg (consume f b now).1
  unfolding consume refilled
  consume-Within cfg b now w =
      take_if-Within cfg _ b now (refilled f b now) w.1
        (ap (λ c. f.le (refilled f b now) c) (sym w.1) ∙ laws.minimum_le _ b.capacity)

  check-AllWithin :
      (l : L1LocalLimiter f) (key : Str) (made now : ℕ)
      → AllWithin f l
      → AllWithin f (check f l key made now).1
  unfolding check insert
  check-AllWithin l key made now all k b held =
      one_of (str_eq key k) (consume f before now).1 (l.buckets k) held
        (consume-Within l.config before now (before-Within (l.buckets key) refl)) (all k b)
    where
      before : Bucket f
      before = or_new f (l.buckets key) (new_bucket f l.config made)

      before-Within :
          (o : Option (Bucket f))
          → l.buckets key ≡ o
          → Within f l.config (or_new f o (new_bucket f l.config made))
      before-Within none e = new_bucket-Within l.config made
      before-Within (some a) e = all key a e

      one_of :
          (c : Bool) (a : Bucket f) (o : Option (Bucket f))
          → (if c then some a else o) ≡ some b
          → Within f l.config a
          → (o ≡ some b → Within f l.config b)
          → Within f l.config b
      one_of true a o h w rest = let same : a ≡ b = cc in subst (λ x. Within f l.config x) same w
      one_of false a o h w rest = rest h

  pub checks-AllWithin :
      (l : L1LocalLimiter f) (calls : List (Str × ℕ × ℕ))
      → AllWithin f l
      → AllWithin f (checks f l calls)
  unfolding checks
  checks-AllWithin l [] all = all
  checks-AllWithin l ((key, made, now) ∷ calls) all =
      checks-AllWithin (check f l key made now).1 calls (check-AllWithin l key made now all)

  -- Whatever keys are checked on a new local limiter, at whatever readings of the clock, no
  -- bucket of it holds more tokens than the capacity.
  pub new-AllWithin :
      (cfg : TokenBucketConfig) (calls : List (Str × ℕ × ℕ))
      → AllWithin f (checks f (new f cfg) calls)
  unfolding new
  new-AllWithin cfg calls = checks-AllWithin (new f cfg) calls (λ key b h. absurd (cc))
