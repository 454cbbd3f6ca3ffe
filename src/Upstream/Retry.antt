-- ===== src/Upstream/Retry.antt =====
-- crates/gateway-core/src/upstream.rs: `send_with_retry`, and the errors of error.rs.
-- The HTTP client is a parameter: what it gives for the attempt of each number. Rust's release
-- build wraps `2u64.pow(attempt)` and the product.
pub mod Laws
pub mod Backoff
use stateform.Prelude.{
  ℕ, zero, suc, ◌+◌, ◌*◌, ◌/◌, ◌%◌, ◌^◌, Bool, true, false, ◌&&◌, Option, none, some, List, [], ◌∷◌,
  max, any, ltb, ◌==◌, if◌then◌else◌,
}
use stateform.Prelude.Text.{Str}
use stateform.Prelude.Words.{u64_mod, saturating_add, wrapping_sub}
use stateform.Config.Schema.{Duration, RetryConfig}

-- `CoreError`; an error of another crate is its message.
pub data CoreError : Type 0 where
  io tls hyper http metrics config : Str → CoreError
  upstream : Str → Str → CoreError
  upstream_timeout : ℕ → CoreError
  no_healthy_endpoints : Str → CoreError
  bind : Str → Str → CoreError
  drain_timeout : CoreError
  body_too_large : ℕ → CoreError
  concurrency_limit_exceeded : Str → CoreError

pub data Result {ℓ} (A : Type ℓ) : Type ℓ where
  ok : A → Result A
  err : CoreError → Result A

abbrev pub as_secs : Duration → ℕ
as_secs d = d / 10 ^ 9

abbrev pub as_millis : Duration → ℕ
as_millis d = d / 10 ^ 6

-- The body of a response, or the error in collecting it.
pub data Body (B : Type 0) : Type 0 where
  collected : B → Body B
  broken : Str → Body B

-- What the client gives under the timeout: nothing in time, an error, or a response by its status
-- and its body.
pub data Reply (B : Type 0) : Type 0 where
  timed_out : Reply B
  failed : Str → Reply B
  answered : ℕ → Body B → Reply B

-- `base_backoff.as_millis() as u64 * 2u64.pow(attempt)`
unfoldable pub base_ms : Duration → ℕ → ℕ
base_ms base_backoff attempt = as_millis base_backoff % u64_mod * (2 ^ attempt % u64_mod) % u64_mod

abbrev pub quarter_of : ℕ → ℕ
quarter_of base = max (base / 4) 1

-- The milliseconds to sleep, from the base and the clock's nanoseconds.
unfoldable pub sleep_ms : ℕ → ℕ → ℕ
sleep_ms base nanos =
    let quarter = quarter_of base in
    let jitter = wrapping_sub (nanos % (quarter * 2)) quarter in saturating_add base jitter

abbrev pub max_attempts_of : Option RetryConfig → ℕ
max_attempts_of none = 1
max_attempts_of (some r) = r.max_attempts

abbrev pub statuses_of : Option RetryConfig → List ℕ
statuses_of none = []
statuses_of (some r) = r.on_statuses

abbrev pub backoff_of : Option RetryConfig → Duration
backoff_of none = 50 * 10 ^ 6
backoff_of (some r) = r.base_backoff

-- `retry_statuses.contains(&status) && attempt + 1 < max_attempts`
unfoldable pub is_retried : Option RetryConfig → ℕ → ℕ → Bool
is_retried retry status attempt =
    any (λ s. s == status) (statuses_of retry) && ltb (attempt + 1) (max_attempts_of retry)

module _ {B : Type 0} (name address : Str) (timeout : Duration) (retry : Option RetryConfig)
    (client : ℕ → Reply B) (nanos : ℕ → ℕ) where
  pub collect : ℕ → Body B → Result (ℕ × B)
  collect status (collected body) = ok (status, body)
  collect status (broken message) = err (upstream address message)

  -- What one reply comes to, with the result and the pauses of the attempts after it.
  pub on_reply : ℕ → ℕ → Reply B → Result (ℕ × B) × List ℕ → Result (ℕ × B) × List ℕ
  on_reply attempt pause timed_out rest = (err (upstream_timeout (as_secs timeout)), [])
  on_reply attempt pause (failed message) rest = (err (upstream address message), [])
  on_reply attempt pause (answered status body) rest =
      if is_retried retry status attempt
      then (rest.0, pause ∷ rest.1)
      else (collect status body, [])

  -- The loop over the attempts: `left` of them from number `attempt` on. The result comes with the
  -- sleeps in milliseconds.
  pub attempts : ℕ → ℕ → Result (ℕ × B) × List ℕ
  attempts zero attempt = (err (no_healthy_endpoints name), [])
  attempts (suc left) attempt =
      let rest = attempts left (attempt + 1) in
      let pause = sleep_ms (base_ms (backoff_of retry) attempt) (nanos attempt) in
      on_reply attempt pause (client attempt) rest

  unfoldable pub send_with_retry : Result (ℕ × B) × List ℕ
  unfolding attempts on_reply collect is_retried
  send_with_retry = attempts (max_attempts_of retry) 0
