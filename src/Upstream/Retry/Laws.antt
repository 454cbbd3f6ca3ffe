-- ===== src/Upstream/Retry/Laws.antt =====
-- Which attempt a result comes from.
use mathlib.Core.Path.{subst}
use stateform.Prelude.{
  ℕ, zero, suc, ◌+◌, ◌<◌, ◌≡◌, inl, inr, refl, true, false, List, length, Option, arith, Bool-cases,
  some, [], ◌∷◌,
}
use stateform.Prelude.Text.{Str}
use stateform.Config.Schema.{Duration, RetryConfig}
use stateform.Upstream.Retry.{
  Reply, timed_out, failed, answered, Result, err, upstream, upstream_timeout, no_healthy_endpoints,
  is_retried, max_attempts_of, as_secs, collect, attempts, on_reply, send_with_retry,
}

module _ {B : Type 0} (name address : Str) (timeout : Duration) (retry : Option RetryConfig)
    (client : ℕ → Reply B) (nanos : ℕ → ℕ) where
  -- The reply got a status that is to be retried at this attempt.
  abbrev pub IsRetried : Reply B → ℕ → Type 0
  IsRetried timed_out j = ⊥
  IsRetried (failed message) j = ⊥
  IsRetried (answered status body) j = is_retried retry status j ≡ true

  -- The result that a reply decides.
  abbrev pub decide_by : Reply B → Result (ℕ × B)
  decide_by timed_out = err (upstream_timeout (as_secs timeout))
  decide_by (failed message) = err (upstream address message)
  decide_by (answered status body) = collect name address timeout retry client nanos status body

  -- The `n` attempts from `i` on were all retried.
  abbrev pub RetriedFrom : ℕ → ℕ → Type 0
  RetriedFrom i zero = Unit {0}
  RetriedFrom i (suc n) = IsRetried (client i) i × RetriedFrom (i + 1) n

  -- The attempt `k`, the one `n` places behind `i`, decides what the attempts from `i` on give.
  pub record Decides (i n k : ℕ) (outcome : Result (ℕ × B) × List ℕ) : Type 0 where
    pub place : k ≡ i + n
    pub earlier : RetriedFrom i n
    pub final : ¬ IsRetried (client k) k
    pub result : outcome.0 ≡ decide_by (client k)
    pub pauses : length outcome.1 ≡ n

  Decides-here :
      (i : ℕ) (r : Reply B) → client i ≡ r → ¬ IsRetried r i → Decides i 0 i (decide_by r, [])
  Decides-here i r is once = record {
    place = omega arith;
    earlier = tt;
    final = rw is once;
    result = rw is refl;
    pauses = refl;
  }

  Decides-later :
      (i n k pause : ℕ) (outcome : Result (ℕ × B) × List ℕ)
      → IsRetried (client i) i
      → Decides (i + 1) n k outcome
      → Decides i (suc n) k (outcome.0, pause ∷ outcome.1)
  Decides-later i n k pause outcome again d = record {
    place = omega (arith, d.place);
    earlier = (again, d.earlier);
    final = d.final;
    result = d.result;
    pauses = omega (arith, d.pauses);
  }

  last_not_retried :
      (i status : ℕ) → i + 1 ≡ max_attempts_of retry → is_retried retry status i ≡ false
  unfolding is_retried
  last_not_retried i status e = ground arith

  -- A reply that ends the loop, or goes on to attempts that an attempt after it decides.
  on_reply-Decides :
      (i pause : ℕ) (r : Reply B) (rest : Result (ℕ × B) × List ℕ)
      → client i ≡ r
      → (IsRetried r i → (n k : ℕ) × Decides (i + 1) n k rest)
      → (n k : ℕ) × Decides i n k (on_reply name address timeout retry client nanos i pause r rest)
  unfolding on_reply
  on_reply-Decides i pause timed_out rest is h = (0, i, Decides-here i timed_out is (λ no_. no_))
  on_reply-Decides i pause (failed message) rest is h =
      (0, i, Decides-here i (failed message) is (λ no_. no_))
  on_reply-Decides i pause (answered status body) rest is h =
      elim (Bool-cases (is_retried retry status i)) [
        | inl again ↦ rw again (
            let (n, k, d) = h again in
            let here : IsRetried (client i) i = rw is again in
            (suc n, k, Decides-later i n k pause rest here d))
        | inr once ↦ rw once (0, i, Decides-here i (answered status body) is (λ e. cc))
      ]

  last-IsRetried : (i : ℕ) (r : Reply B) → i + 1 ≡ max_attempts_of retry → ¬ IsRetried r i
  last-IsRetried i timed_out e = λ again. again
  last-IsRetried i (failed message) e = λ again. again
  last-IsRetried i (answered status body) e = λ again. cc (last_not_retried i status e)

  attempts-Decides :
      (left i : ℕ)
      → i + suc left ≡ max_attempts_of retry
      → (n k : ℕ) × Decides i n k (attempts name address timeout retry client nanos (suc left) i)
  unfolding attempts
  attempts-Decides zero i e =
      on_reply-Decides i _ (client i) _ refl
        (λ again. absurd (last-IsRetried i (client i) (omega arith) again))
  attempts-Decides (suc left) i e =
      let later = attempts-Decides left (i + 1) (omega arith) in
      on_reply-Decides i _ (client i) _ refl (λ again. later)

  is_retried-lt : (i status : ℕ) → is_retried retry status i ≡ true → i + 1 < max_attempts_of retry
  unfolding is_retried
  is_retried-lt i status e = ground arith

  IsRetried-lt : (i : ℕ) (r : Reply B) → IsRetried r i → i + 1 < max_attempts_of retry
  IsRetried-lt i timed_out again = absurd again
  IsRetried-lt i (failed message) again = absurd again
  IsRetried-lt i (answered status body) again = is_retried-lt i status again

  RetriedFrom-lt :
      (n i : ℕ) → i < max_attempts_of retry → RetriedFrom i n → i + n < max_attempts_of retry
  RetriedFrom-lt zero i lo h = omega arith
  RetriedFrom-lt (suc n) i lo h =
      omega (arith, RetriedFrom-lt n (i + 1) (IsRetried-lt i (client i) h.0) h.1)

  total-Decides :
      (total : ℕ)
      → total ≡ max_attempts_of retry
      → 0 < total
      → (k : ℕ) × (k < max_attempts_of retry)
        × Decides 0 k k (attempts name address timeout retry client nanos total 0)
  total-Decides zero e some_ = absurd (omega arith)
  total-Decides (suc left) e some_ =
      let (n, k, d) = attempts-Decides left 0 (omega arith) in
      let same : k ≡ n = omega (arith, d.place) in
      let below = RetriedFrom-lt n 0 (omega arith) d.earlier in
      (
        n,
        omega (arith, below),
        subst (λ m. Decides 0 n m (attempts name address timeout retry client nanos (suc left) 0))
            same d,
      )

  -- With at least one attempt, there is one that decides the result: every attempt before it
  -- got a status that is retried, its own reply is not retried, its reply alone gives the
  -- result, and the loop slept once for each attempt before it.
  pub send_with_retry-Decides :
      0 < max_attempts_of retry
      → (k : ℕ) × (k < max_attempts_of retry)
        × Decides 0 k k (send_with_retry name address timeout retry client nanos)
  unfolding send_with_retry
  send_with_retry-Decides some_ = total-Decides (max_attempts_of retry) refl some_

-- With no attempts the upstream is never asked, and the error blames its endpoints.
send_with_retry-zero :
    {B : Type 0} (name address : Str) (timeout : Duration) (r : RetryConfig) (client : ℕ → Reply B)
    (nanos : ℕ → ℕ)
    → r.max_attempts ≡ 0
    → send_with_retry name address timeout (some r) client nanos
      ≡ (err (no_healthy_endpoints name), [])
unfolding send_with_retry
send_with_retry-zero name address timeout r client nanos none_ = rw none_
