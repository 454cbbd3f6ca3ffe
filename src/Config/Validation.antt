-- ===== src/Config/Validation.antt =====
-- crates/gateway-config/src/validation.rs and error.rs: the semantic checks of a configuration. A
-- message is the constructor that names its text, with what the text quotes.
pub mod Laws
use stateform.Prelude.{
  ℕ, ◌==◌, Bool, true, false, not, Option, none, some, List, [], ◌∷◌, any, if◌then◌else◌,
}
use stateform.Prelude.Text.{Str, str_eq, trim, is_empty, is_some}
use stateform.Config.Schema.{
  EndpointConfig, UpstreamConfig, LoadBalancingConfig, weighted_round_robin, least_connections,
  consistent_hashing, RouteConfig, PathMatch, prefix, exact, regex, GatewayConfig,
  RateLimitMiddlewareRef, RateLimitPolicy,
}
use stateform.Http.{RegexApi}

pub data Problem : Type 0 where
  no_endpoints : Str → Problem
  zero_weight : Str → Str → Problem
  no_hash_header : Str → Problem
  no_route_id : Problem
  unknown_upstream : Str → Str → Problem
  invalid_path_regex : Str → Str → Problem
  duplicate_route_id : Str → Problem
  unknown_policy : Str → Str → Problem

pub data ConfigError : Type 0 where
  io parse : Str → ConfigError
  validation : Problem → ConfigError

pub data Checked : Type 0 where
  ok : Checked
  err : ConfigError → Checked

-- `first?; second`
abbrev pub and_then : Checked → Checked → Checked
and_then ok second = second
and_then (err e) second = err e

-- `Err` if the test holds.
abbrev pub refuse_if : Bool → Problem → Checked
refuse_if true p = err (validation p)
refuse_if false p = ok

-- `map.contains_key(key)`
abbrev pub contains_key : {V : Type 0} → Str → List (Str × V) → Bool
contains_key key entries = any (λ e. str_eq e.0 key) entries

unfoldable pub validate_endpoints : Str → List EndpointConfig → Checked
validate_endpoints name [] = ok
validate_endpoints name (ep ∷ eps) =
    and_then (refuse_if (ep.weight == 0) (zero_weight name ep.address))
      (validate_endpoints name eps)

unfoldable pub validate_hash_header : Str → LoadBalancingConfig → Checked
unfolding trim
validate_hash_header name (consistent_hashing hash_header virtual_nodes) =
    refuse_if (is_empty (trim hash_header)) (no_hash_header name)
validate_hash_header name _ = ok

abbrev pub has_none : List EndpointConfig → Bool
has_none [] = true
has_none (ep ∷ eps) = false

unfoldable pub validate_upstreams : List (Str × UpstreamConfig) → Checked
unfolding validate_endpoints validate_hash_header
validate_upstreams [] = ok
validate_upstreams ((name, upstream) ∷ rest) =
    and_then (refuse_if (has_none upstream.endpoints) (no_endpoints name)) (
      and_then (validate_endpoints name upstream.endpoints)
        (and_then (validate_hash_header name upstream.load_balancing) (validate_upstreams rest)))

-- The second loop of `validate_routes`; the list is the set of the ids seen so far.
unfoldable pub validate_ids : List Str → List RouteConfig → Checked
unfolding str_eq
validate_ids seen [] = ok
validate_ids seen (route ∷ routes) =
    and_then (refuse_if (any (λ id. str_eq id route.id) seen) (duplicate_route_id route.id))
      (validate_ids (route.id ∷ seen) routes)

unfoldable pub validate_policy :
    List (Str × RateLimitPolicy) → Str → Option RateLimitMiddlewareRef → Checked
unfolding str_eq
validate_policy policies id none = ok
validate_policy policies id (some rl) =
    refuse_if (not (contains_key rl.policy policies)) (unknown_policy id rl.policy)

unfoldable pub validate_rate_limit_refs : List (Str × RateLimitPolicy) → List RouteConfig → Checked
unfolding validate_policy
validate_rate_limit_refs policies [] = ok
validate_rate_limit_refs policies (route ∷ routes) =
    and_then (validate_policy policies route.id route.middleware.rate_limit)
      (validate_rate_limit_refs policies routes)

module _ (x : RegexApi) where
  unfoldable pub validate_pattern : Str → PathMatch → Checked
  validate_pattern id (regex pattern) =
      refuse_if (not (is_some (x.new pattern))) (invalid_path_regex id pattern)
  validate_pattern id _ = ok

  -- The first loop of `validate_routes`.
  unfoldable pub validate_each_route : List (Str × UpstreamConfig) → List RouteConfig → Checked
  unfolding trim str_eq validate_pattern
  validate_each_route upstreams [] = ok
  validate_each_route upstreams (route ∷ routes) =
      and_then (refuse_if (is_empty (trim route.id)) no_route_id) (
        and_then
          (refuse_if (not (contains_key route.upstream upstreams))
            (unknown_upstream route.id route.upstream))
          (and_then (validate_pattern route.id route.match_.path)
            (validate_each_route upstreams routes)))

  unfoldable pub validate_routes : GatewayConfig → Checked
  unfolding validate_each_route validate_ids
  validate_routes cfg =
      and_then (validate_each_route cfg.upstreams cfg.routes) (validate_ids [] cfg.routes)

  unfoldable pub validate : GatewayConfig → Checked
  unfolding validate_upstreams validate_routes validate_rate_limit_refs
  validate cfg = and_then (validate_upstreams cfg.upstreams) (
      and_then (validate_routes cfg)
        (validate_rate_limit_refs cfg.rate_limiting.policies cfg.routes))
