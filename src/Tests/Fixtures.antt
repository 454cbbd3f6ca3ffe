-- ===== src/Tests/Fixtures.antt =====
-- Header maps as lists of entries, and patterns that match one text each, as instances of what
-- the crates `http` and `regex` give, and a route and a configuration to fill in.
use stateform.Prelude.{false, Option, none, some, List, [], ◌∷◌, if◌then◌else◌}
use stateform.Prelude.Text.{Str, codes, str_eq, is_empty}
use stateform.Config.Schema.{RouteConfig, PathMatch, GatewayConfig}
use stateform.Http.{HeaderApi, RegexApi}

unfoldable pub lookup : List (Str × Str) → Str → Option Str
unfolding str_eq
lookup [] name = none
lookup ((n, v) ∷ entries) name = if str_eq n name then some v else lookup entries name

abbrev pub test_headers : HeaderApi
test_headers = record {
  HeaderMap = List (Str × Str);
  HeaderValue = Str;
  get = lookup;
  to_str = λ v. some v;
  iter = λ m. m;
}

-- The empty pattern is invalid.
abbrev pub compile : Str → Option Str
compile pattern = if is_empty pattern then none else some pattern

abbrev pub test_regex : RegexApi
test_regex = record {
  Regex = Str;
  Captures = Str;
  new = compile;
  is_match = λ re s. str_eq re s;
  captures = λ re s. if str_eq re s then some s else none;
  capture_names = λ re. none ∷ some (codes "all") ∷ [];
  name = λ caps n. some caps;
}

abbrev pub route : Str → PathMatch → Option Str → RouteConfig
route id path method = record {
  id = id;
  match_ = record { path = path; method = method; headers = [] };
  upstream = codes "api";
  load_balancing = none;
  middleware = record { auth = none; rate_limit = none; cache = none };
  headers = record { request_set = []; request_remove = []; response_set = [] };
  max_concurrent_requests = none;
}

abbrev pub gateway : List RouteConfig → GatewayConfig
gateway routes = record {
  listener = record {
    bind = codes "0.0.0.0:8080";
    tls = none;
    max_body_bytes = 1_000_000;
    keepalive = 0;
    max_concurrent_requests = 100;
    concurrency_acquire_timeout_ms = 0;
  };
  upstreams = [];
  routes = routes;
  rate_limiting = record { redis_url = []; policies = [] };
  cache = record { redis_url = []; l1_capacity = 100 };
  auth = record {
    jwt = record { jwks_url = []; audience = []; issuers = []; jwks_cache_ttl = 0 };
    api_keys = record { redis_key_prefix = []; redis_url = [] };
    mtls = record { client_ca_path = []; required = false };
  };
  observability = record { metrics_bind = [] };
  control_plane = record { grpc_address = []; reconnect_interval = 0 };
}
