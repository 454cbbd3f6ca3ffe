-- ===== src/Tests/RateLimit.antt =====
-- The theorems on crates/gateway-ratelimit at concrete inputs.
use stateform.Prelude.{
  ◌≡◌, ◌≤◌, refl, ℕ, ◌*◌, ◌^◌, min, arith, none, some, List, [], ◌∷◌, Bool, true, Memᴰ,
}
use stateform.Prelude.Text.{Str, codes, trim, trim_start_matches, str_eq}
use stateform.Config.Schema.{
  TokenBucketConfig, sliding_window, RouteConfig, PathMatch, GatewayConfig, weighted_round_robin,
}
use stateform.Config.Validation as Validation
use stateform.RateLimit.L1Local as L1
use stateform.RateLimit.L1Local.{new_bucket, consume, refilled}
use stateform.RateLimit.L1Local.Burst.{granted, granted-min}
use stateform.RateLimit.L2Redis as L2
use stateform.RateLimit.L2Redis.{token_bucket_script, sliding_window_script}
use stateform.RateLimit.L2Redis.TokenBucket.{decision, token_bucket_script-consume}
use stateform.RateLimit.L2Redis.Window as Window
use stateform.RateLimit.L2Redis.Window.{above, start_of, last_time, admitted, admitted-bounded}
use stateform.RateLimit.Limiter as Limiter
use stateform.RateLimit.Limiter.{
  Policy, Reading, RateLimiter, RateLimitOutcome, check_policy, check,
}
use stateform.RateLimit.Limiter.Laws.{Decided, check_policy-Decided}
use stateform.RateLimit.Limiter.Known.{check-ok}
use stateform.Tests.Fixtures.{test_headers, test_regex, route, gateway}
use stateform.Tests.Floats as Floats
use stateform.Tests.Floats.{
  test_floats, test_floats-OrderLaws, test_floats-ExactLaws, test_zset, zset_laws, test_scripts,
}

abbrev bucket : TokenBucketConfig
bucket = record { capacity = 5; refill_rate = 1 }

granted-min_example : granted test_floats 7 (new_bucket test_floats bucket 1000) 1000 ≡ min 7 5
granted-min_example = granted-min test_floats test_floats-ExactLaws bucket 7 1000 (omega arith)

-- Two tokens a second ago, in both layers.
token_bucket_script-consume_example :
    (decision test_floats (codes "") (
        token_bucket_script test_floats
          (λ ttl. true)
          5
          1
          101
          (some (record { tokens = 2; last_refill = 100 })))
      ≡ (consume test_floats
          (record { tokens = 2; capacity = 5; refill_rate = 1; last_refill = 0 })
          1_000_000_000).0)
    × ((token_bucket_script test_floats
          (λ ttl. true)
          5
          1
          101
          (some (record { tokens = 2; last_refill = 100 }))).stored.tokens
        ≡ (consume test_floats
            (record { tokens = 2; capacity = 5; refill_rate = 1; last_refill = 0 })
            1_000_000_000).1.tokens)
token_bucket_script-consume_example =
    token_bucket_script-consume test_floats test_floats-OrderLaws (λ ttl. true) (codes "") 5 1
      1_000_000_000 101 (some (record { tokens = 2; last_refill = 100 }))
      (record { tokens = 2; capacity = 5; refill_rate = 1; last_refill = 0 }) refl refl refl refl

-- Three requests within ten seconds, where two are allowed.
abbrev calls : List (ℕ × Str)
calls = (100, codes "r1") ∷ (101, codes "r2") ∷ (102, codes "r3") ∷ []

admitted-bounded_example :
    above test_floats
      (start_of test_floats 10 (last_time test_floats 100 calls))
      (admitted test_floats test_zset 2 10 [] [] calls)
    ≤ 2
unfolding Window.Proper Window.call sliding_window_script L2.answer_window Floats.drop_to
    Floats.has_member Floats.zset_laws str_eq
admitted-bounded_example =
    admitted-bounded test_floats test_zset zset_laws test_floats-OrderLaws 2 10 100 calls
      (refl, refl, (refl, refl, (refl, refl, tt)))

abbrev policy : Policy test_floats
policy = record { l1 = L1.new test_floats bucket; l2 = sliding_window 10 (60 * 10 ^ 9) }

abbrev reading : Reading test_floats
reading = record { made = 0; taken = 0; counted = 0; unix = 100; rand = 7 }

check_policy-Decided_example :
    Decided test_floats test_scripts policy
      (codes "k")
      reading
      0
      (L1.check test_floats policy.l1 (codes "k") 0 0).0
      (L2.check test_floats test_scripts policy.l2 (codes "k") 100 7 0).0.allowed
      (
        (check_policy test_floats test_scripts policy (codes "k") reading 0).0,
        (check_policy test_floats test_scripts policy (codes "k") reading 0).2,
      )
check_policy-Decided_example =
    check_policy-Decided test_floats test_scripts policy (codes "k") reading 0

abbrev limited : RouteConfig
limited = record (route (codes "v1") (PathMatch.prefix (codes "/api")) none) {
  middleware = record {
    auth = none;
    rate_limit = some (record { policy = codes "std" });
    cache = none;
  };
}

abbrev config : GatewayConfig
config = record (gateway (limited ∷ [])) {
  upstreams =
      (
        codes "api",
        record {
          endpoints = record { address = codes "10.0.0.1:80"; weight = 1; active = true } ∷ [];
          load_balancing = weighted_round_robin;
          health_check = none;
          timeouts = record { connect = 0; request = 0; idle = 0 };
          retry = none;
        },
      )
      ∷ [];
  rate_limiting = record {
    redis_url = [];
    policies =
        (codes "std", record { local = bucket; distributed = sliding_window 10 (60 * 10 ^ 9) })
        ∷ [];
  };
}

valid : Validation.validate test_regex config ≡ Validation.ok
unfolding Validation.validate Validation.validate_upstreams Validation.validate_endpoints
    Validation.validate_hash_header Validation.validate_routes Validation.validate_each_route
    Validation.validate_pattern Validation.validate_ids Validation.validate_rate_limit_refs
    Validation.validate_policy str_eq trim trim_start_matches
valid = refl

abbrev limiter : RateLimiter test_floats
limiter = record { policies = (codes "std", policy) ∷ [] }

check-ok_example :
    (outcome : RateLimitOutcome) × ((check test_headers Bool test_floats test_scripts limiter
        reading 0
        (some (record { policy = codes "std" }))
        (codes "v1")
        none
        []).0
      ≡ L2.ok outcome)
unfolding Limiter.new Limiter.new_policies Limiter.add_policy L1.new
check-ok_example =
    check-ok test_regex test_headers Bool test_floats test_scripts config limited limiter reading 0
      none [] valid refl (Memᴰ.head refl)
