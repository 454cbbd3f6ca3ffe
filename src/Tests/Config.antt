-- ===== src/Tests/Config.antt =====
-- The theorems on crates/gateway-config at concrete inputs.
use stateform.Prelude.{◌≡◌, refl, true, none, [], ◌∷◌}
use stateform.Prelude.Text.{Str, codes, str_eq, trim, trim_start_matches}
use stateform.Config.Schema.{
  RouteConfig, UpstreamConfig, GatewayConfig, consistent_hashing, prefix, regex,
}
use stateform.Config.Validation.{
  ok, validate, validate_upstreams, validate_endpoints, validate_hash_header, validate_routes,
  validate_each_route, validate_pattern, validate_ids, validate_rate_limit_refs, validate_policy,
}
use stateform.Config.Validation.Laws.{validate-build}
use stateform.Config.Watcher.{
  Read, done, failed, ConfigWatcher, loaded, load, reloads, Valid, reloads-Valid,
}
use stateform.Config.Watcher as Watcher
use stateform.Router.Table as Table
use stateform.Router.Table.{Router}
use stateform.Tests.Fixtures.{test_regex, route, gateway}

abbrev api : UpstreamConfig
api = record {
  endpoints = record { address = codes "10.0.0.1:80"; weight = 1; active = true } ∷ [];
  load_balancing = consistent_hashing (codes "x-user") 150;
  health_check = none;
  timeouts = record { connect = 5_000_000_000; request = 30_000_000_000; idle = 90_000_000_000 };
  retry = none;
}

abbrev v1 : RouteConfig
v1 = route (codes "v1") (prefix (codes "/api/v1")) none

abbrev health : RouteConfig
health = route (codes "health") (regex (codes "/health")) none

abbrev config : GatewayConfig
config = record (gateway (v1 ∷ health ∷ [])) { upstreams = (codes "api", api) ∷ [] }

valid : validate test_regex config ≡ ok
unfolding validate validate_upstreams validate_endpoints validate_hash_header validate_routes
    validate_each_route validate_pattern validate_ids validate_rate_limit_refs validate_policy
    str_eq trim trim_start_matches
valid = refl

validate-build_example : (r : Router test_regex) × (Table.build test_regex config ≡ Table.ok r)
validate-build_example = validate-build test_regex config valid

-- Every file reads as the same configuration.
abbrev test_yaml : Str → Read GatewayConfig
test_yaml raw = done config

-- A start, a reload of a file that is gone, and one of a file that is there.
reloads-Valid_example : Valid test_regex test_yaml (
    reloads test_regex test_yaml
      (failed (codes "gone") ∷ done [] ∷ [])
      (record { inner = config; notified = config }))
unfolding load Watcher.parse_and_validate Watcher.validated validate validate_upstreams
    validate_endpoints validate_hash_header validate_routes validate_each_route validate_pattern
    validate_ids validate_rate_limit_refs validate_policy str_eq trim trim_start_matches
reloads-Valid_example =
    reloads-Valid test_regex test_yaml (done []) (failed (codes "gone") ∷ done [] ∷ [])
      (record { inner = config; notified = config }) refl
