-- ===== src/Tests/Upstream.antt =====
-- The theorems on crates/gateway-core/src/upstream.rs at concrete inputs.
use stateform.Prelude.{◌<◌, ◌⊎◌, ◌≡◌, Memᴰ}
use stateform.Prelude.{
  false, ℕ, zero, suc, ◌≡◌, ◌≢◌, ◌<◌, ◌⊎◌, refl, true, none, some, List, [], ◌∷◌, Memᴰ, arith,
}
use stateform.Prelude.Text.{Str, codes}
use stateform.Prelude.Words.{u64_max}
use stateform.Config.Schema.{
  HealthCheckConfig, RetryConfig, weighted_round_robin, least_connections,
}
use stateform.Upstream.Health.{EndpointState, health_state, is_available, mark_failure, from_u8}
use stateform.Upstream.Health.Laws.{failure, mark}
use stateform.Upstream.Poller.{timed_out, failed, answered, poll, polls, polls-unavailable}
use stateform.Upstream.Health.Run.{changes, Spaced, changes-Spaced}
use stateform.Upstream.Select.{
  Endpoint, done, select_endpoint, available, state_of, score, round_robin, effective_weight,
}
use stateform.Upstream.Select.Laws.{select_endpoint-available, least_connections-IsLeast, IsLeast}
use stateform.Upstream.Select.RoundRobin.{round_robin-owner}
use stateform.Upstream.Retry.{
  Reply, answered, collected, send_with_retry, sleep_ms, max_attempts_of,
}
use stateform.Upstream.Retry.Backoff.{sleep_ms-saturates}
use stateform.Upstream.Retry.Laws.{Decides, send_with_retry-Decides}
use stateform.Upstream.Pool.{UpstreamPool, send}
use stateform.Upstream.Pool.InFlight.{KeepsCounts, send-KeepsCounts}

abbrev checks : HealthCheckConfig
checks = record {
  path = codes "/healthz";
  interval = 10_000_000_000;
  timeout = 2_000_000_000;
  healthy_threshold = 2;
  unhealthy_threshold = 3;
}

abbrev endpoint : Str → ℕ → ℕ → EndpointState
endpoint address weight health = record {
  address = address;
  weight = weight;
  health = health;
  consecutive_failures = 0;
  consecutive_successes = 0;
  last_state_change_ms = 0;
  active_conns = 1;
  ewma_latency = 20;
}

abbrev one : EndpointState
one = endpoint (codes "10.0.0.1:80") 3 1

abbrev two : EndpointState
two = endpoint (codes "10.0.0.2:80") 2 1

abbrev ups : List Endpoint
ups = (0, one) ∷ (1, two) ∷ []

changed : (mark checks failure 50_000 one).1 ≢ health_state one
unfolding mark mark_failure health_state
changed = λ e. absurd (cc)

changes-Spaced_example :
    Spaced 0 (changes checks ((failure, 50_000) ∷ (failure, 61_000) ∷ (failure, 72_000) ∷ []) one)
changes-Spaced_example =
    changes-Spaced checks ((failure, 50_000) ∷ (failure, 61_000) ∷ (failure, 72_000) ∷ []) one

polls-unavailable_example :
    is_available
      (poll checks 90_000
        (answered 503)
        (polls checks ((50_000, timed_out) ∷ (60_000, failed) ∷ []) one)).0
    ≡ false
polls-unavailable_example =
    polls-unavailable checks ((50_000, timed_out) ∷ (60_000, failed) ∷ []) 90_000 (answered 503) one
      (tt, (tt, tt)) refl (omega arith) (omega arith) (omega arith) (omega arith, (omega arith, tt))

round_robin-owner_example : round_robin ((0, one) ∷ (1, two) ∷ []) 13 ≡ (some (1, two), 14)
unfolding effective_weight health_state from_u8
round_robin-owner_example =
    round_robin-owner ((0, one) ∷ []) (1, two) [] 13 (ground arith) (ground arith) (ground arith)
      (ground arith)

select_endpoint-available_example :
    ((available ups ≡ []) × ((select_endpoint ups weighted_round_robin none 13).0 ≡ done none))
    ⊎ ((e : Endpoint) × ((select_endpoint ups weighted_round_robin none 13).0 ≡ done (some e))
        × Memᴰ e ups
        × (is_available (state_of e) ≡ true))
select_endpoint-available_example = select_endpoint-available ups weighted_round_robin none 13 tt

some_available : available ups ≢ []
unfolding is_available health_state from_u8
some_available = λ e. absurd (cc)

least_connections-IsLeast_example :
    (e : Endpoint) × ((select_endpoint ups (least_connections (record { bits = 0 })) none 13).0
      ≡ done (some e))
    × Memᴰ e ups
    × (is_available (state_of e) ≡ true)
    × IsLeast (score e) (available ups)
least_connections-IsLeast_example =
    least_connections-IsLeast ups (record { bits = 0 }) none 13 some_available

sleep_ms-saturates_example : sleep_ms 50 5 ≡ u64_max
sleep_ms-saturates_example = sleep_ms-saturates 50 5 (omega arith) (omega arith)

abbrev retry : RetryConfig
retry = record { max_attempts = 3; base_backoff = 50_000_000; on_statuses = 502 ∷ 503 ∷ [] }

-- The first attempt is answered with 503, the second with 200.
flaky : ℕ → Reply Str
flaky zero = answered 503 (collected [])
flaky (suc k) = answered 200 (collected (codes "ok"))

send_with_retry-Decides_example :
    (k : ℕ) × (k < max_attempts_of (some retry))
    × Decides
        (codes "api")
        (codes "10.0.0.1:80")
        30_000_000_000
        (some retry)
        flaky
        (λ k. 20)
        0
        k
        k
        (send_with_retry
          (codes "api")
          (codes "10.0.0.1:80")
          30_000_000_000
          (some retry)
          flaky
          (λ k. 20))
send_with_retry-Decides_example =
    send_with_retry-Decides (codes "api") (codes "10.0.0.1:80") 30_000_000_000 (some retry) flaky
      (λ k. 20) (omega arith)

abbrev pool : UpstreamPool
pool = record {
  name = codes "api";
  config = record {
    endpoints = [];
    load_balancing = weighted_round_robin;
    health_check = none;
    timeouts = record { connect = 5_000_000_000; request = 30_000_000_000; idle = 90_000_000_000 };
    retry = some retry;
  };
  endpoints = one ∷ two ∷ [];
  rr_counter = 13;
}

send-KeepsCounts_example : KeepsCounts pool (send (λ address. flaky) (λ k. 20) 7_000_000 pool none)
send-KeepsCounts_example =
    send-KeepsCounts (λ address. flaky) (λ k. 20) 7_000_000 pool none
      (omega arith, (omega arith, tt))
