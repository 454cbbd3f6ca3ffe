-- ===== src/RateLimit/L2Redis/TokenBucket.antt =====
-- crates/gateway-ratelimit/src/l2_redis.rs: the token bucket of the script against the local one.
use stateform.Prelude.{
  ℕ, ◌-◌, ◌≡◌, refl, sym, ap, ap₂, ◌∙◌, Bool, true, false, Option, if◌then◌else◌, Bool-cases, inl,
  inr,
}
use stateform.Prelude.Text.{Str}
use stateform.RateLimit.Float.{FloatApi, OrderLaws}
use stateform.RateLimit.L1Local.{Bucket, refilled, take_if, consume}
use stateform.RateLimit.L2Redis.{
  Stored, BucketRun, tokens_or, last_refill_or, available_now, token_bucket_script, answer_bucket,
  outcome_of, or_open, read_reply,
}

module _ (f : FloatApi) where
  -- Whether `check` lets a request pass after a run of the script.
  abbrev pub decision : Str → BucketRun f → Bool
  unfolding or_open read_reply
  decision message run = (or_open (read_reply (run.reply, message))).allowed

module _ (f : FloatApi) (laws : OrderLaws f) (expires : f.F → Bool) where
  answer-take_if :
      (message : Str) (capacity refill_rate now tokens : f.F) (c : Bool) (b : Bucket f) (at : ℕ)
      → (decision f message (answer_bucket f expires capacity refill_rate now tokens c) ≡ (
          if expires (answer_bucket f expires capacity refill_rate now tokens c).ttl
          then (take_if f c b at tokens).0
          else true))
        × ((answer_bucket f expires capacity refill_rate now tokens c).stored.tokens
            ≡ (take_if f c b at tokens).1.tokens)
  unfolding outcome_of answer_bucket or_open read_reply decision
  answer-take_if message capacity refill_rate now tokens true b at =
      elim (Bool-cases (expires (f.add (f.ceil (f.div capacity refill_rate)) (f.of_nat 10)))) [
        | inl taken ↦ (rw taken refl, refl)
        | inr refused ↦ (rw refused refl, refl)
      ]
  answer-take_if message capacity refill_rate now tokens false b at =
      elim (Bool-cases (expires (f.add (f.ceil (f.div capacity refill_rate)) (f.of_nat 10)))) [
        | inl taken ↦ (rw taken refl, refl)
        | inr refused ↦ (rw refused refl, refl)
      ]

  -- From the same tokens, capacity and refill rate and after the same measured time, the Redis
  -- script and the local bucket leave the same number of tokens. Where EXPIRE takes the seconds
  -- that the script computes they also make the same decision; where it refuses them, the
  -- script gives no reply and the request is allowed whatever the local bucket decides.
  pub token_bucket_script-consume :
      (message : Str) (capacity refill_rate at : ℕ) (now : f.F) (data_ : Option (Stored f))
      (b : Bucket f)
      → b.tokens ≡ tokens_or f (f.of_nat capacity) data_
      → b.capacity ≡ f.of_nat capacity
      → b.refill_rate ≡ f.of_nat refill_rate
      → f.maximum (f.of_nat 0) (f.sub now (last_refill_or f now data_))
        ≡ f.secs (at - b.last_refill)
      → (decision f message (token_bucket_script f expires capacity refill_rate now data_) ≡ (
          if expires (token_bucket_script f expires capacity refill_rate now data_).ttl
          then (consume f b at).0
          else true))
        × ((token_bucket_script f expires capacity refill_rate now data_).stored.tokens
            ≡ (consume f b at).1.tokens)
  unfolding token_bucket_script available_now consume refilled
  token_bucket_script-consume message capacity refill_rate at now data_ b t c r elapsed =
      let left = available_now f (f.of_nat capacity) (f.of_nat refill_rate) now data_ in
      let (allowed, kept) =
        answer-take_if message (f.of_nat capacity) (f.of_nat refill_rate) now left
          (f.le (f.of_nat 1) left) b at in
      let ttl = (token_bucket_script f expires capacity refill_rate now data_).ttl in
      (
        allowed
            ∙ ap (λ x. if expires ttl then (take_if f (f.le (f.of_nat 1) x) b at x).0 else true)
                same,
        kept ∙ ap (λ x. (take_if f (f.le (f.of_nat 1) x) b at x).1.tokens) same,
      )
    where
      same : available_now f (f.of_nat capacity) (f.of_nat refill_rate) now data_ ≡ refilled f b at
      same =
          laws.minimum_comm _ _
          ∙ ap₂ (λ x k. f.minimum x k)
              (ap₂ (λ x y. f.add x y) (sym t) (ap₂ (λ x y. f.mul x y) elapsed (sym r))) (sym c)
