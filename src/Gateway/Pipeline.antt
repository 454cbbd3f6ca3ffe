-- ===== src/Gateway/Pipeline.antt =====
-- crates/gateway-core/src/pipeline.rs: `handle`, over the operations of the components that it calls,
-- which are the interface `Stages`. `W` is the state of all shared parts. Log lines and metrics are
-- left out.
pub mod Messages
pub mod Effects
pub mod Asks
pub mod Ids
use stateform.Prelude.{ℕ, Bool, true, false, Option, none, some, List, [], ◌∷◌, if◌then◌else◌}
use stateform.Prelude.Text.{Str, codes}
use stateform.Config.Schema.{
  AuthMiddlewareConfig, RateLimitMiddlewareRef, CacheMiddlewareConfig, LoadBalancingConfig,
  consistent_hashing, RouteConfig,
}
use stateform.Http.{HeaderApi, HeaderEdit}
use stateform.Auth.Context.{AuthContext}
use stateform.Auth.Error as Auth
use stateform.Auth.Error.{AuthError, status_code}
use stateform.Cache.Layer.{CacheLookup, hit, miss, bypass}
use stateform.RateLimit.L2Redis as RateLimit
use stateform.RateLimit.Limiter.{RateLimitOutcome, to_headers}
use stateform.Router.Table.{MatchedRoute}
use stateform.Upstream.Retry as Upstream
use stateform.Upstream.Retry.{CoreError, upstream_timeout}
use stateform.Gateway.Response.{Response}
use Messages.{
  Request, HttpResponse, with_headers, append_headers, error_response, build_cached_response,
  build_upstream_response, apply_request_mutations, inject_request_id,
}

-- What `acquire` gives.
pub data Acquired (Permit : Type 0) : Type 0 where
  permit : Permit → Acquired Permit
  busy : Response → Acquired Permit

pub record Stages (h : HeaderApi) (Value : Type 0) : Type 1 where
  pub W : Type 0
  pub Extensions : Type 0
  pub Permit : Type 0
  -- The router's current table: path, method and headers.
  pub match_request : Str → Str → h.HeaderMap → W → Option MatchedRoute
  pub acquire : Str → W → Acquired Permit × W
  pub drop_permit : Permit → W → W
  pub run_auth :
      Option AuthMiddlewareConfig
      → h.HeaderMap
      → Extensions
      → W
      → Auth.Result AuthError (Option (AuthContext Value)) × W
  pub check :
      Option RateLimitMiddlewareRef
      → Str
      → Option (AuthContext Value)
      → h.HeaderMap
      → W
      → RateLimit.Result RateLimitOutcome × W
  -- Route, method, path, query and headers of the request.
  pub lookup :
      Option CacheMiddlewareConfig
      → Str
      → Str
      → Str
      → Option Str
      → h.HeaderMap
      → W
      → CacheLookup × W
  -- Then status, headers and body of the response, and the headers of the request.
  pub store :
      Option CacheMiddlewareConfig
      → Str
      → Str
      → Str
      → Option Str
      → ℕ
      → h.HeaderMap
      → List ℕ
      → h.HeaderMap
      → W
      → W
  -- The balancing of a pool, if the registry has it.
  pub get : Str → W → Option LoadBalancingConfig
  pub send : Str → Request h → Option Str → W → Upstream.Result (HttpResponse h) × W
  -- Both give the text of an error.
  pub auth_text : AuthError → Str
  pub core_text : CoreError → Str
  pub json : Str → Str
  -- The clock for the `Age` header, in seconds, and `Uuid::new_v4`.
  pub now : W → ℕ
  pub new_uuid : W → Str

-- `fail_open` of a limit that cannot be checked.
abbrev pub fail_open : RateLimitOutcome
fail_open = record {
  allowed = true;
  remaining = 0;
  limit = 0;
  retry_after_ms = 0;
  denied_by = none;
}

abbrev pub outcome_or_open : RateLimit.Result RateLimitOutcome → RateLimitOutcome
outcome_or_open (RateLimit.ok o) = o
outcome_or_open (RateLimit.err e) = fail_open

abbrev pub or_some : Option LoadBalancingConfig → LoadBalancingConfig → LoadBalancingConfig
or_some none lb = lb
or_some (some own) lb = own

abbrev pub gateway_status : CoreError → ℕ
gateway_status (upstream_timeout ms) = 504
gateway_status _ = 502

module _ (h : HeaderApi) where
  abbrev pub header_text : h.HeaderMap → Str → Option Str
  header_text headers name = elim (h.get headers name) [ none ↦ none | some v ↦ h.to_str v ]

  unfoldable pub hash_key :
      Option LoadBalancingConfig → LoadBalancingConfig → h.HeaderMap → Option Str
  hash_key own pool headers = elim (or_some own pool) [
    | consistent_hashing hash_header nodes ↦ header_text headers hash_header
    | _ ↦ none
  ]

  abbrev pub or_uuid : Option Str → Str → Str
  or_uuid none uuid = uuid
  or_uuid (some id) uuid = id

module _ (h : HeaderApi) (e : HeaderEdit h) (Value : Type 0) (s : Stages h Value) where
  -- What a request carries through the stages: the request, its id and its route.
  pub record Task : Type 0 where
    pub req : Request h
    pub extensions : s.Extensions
    pub request_id : Str
    pub route : RouteConfig

  -- Stages 6 and 7: what is stored and sent back.
  unfoldable pub on_upstream : Task → Upstream.Result (HttpResponse h) → s.W → HttpResponse h × s.W
  unfolding error_response build_upstream_response inject_request_id
  on_upstream t (Upstream.err er) w =
      (error_response h e s.json (gateway_status er) (s.core_text er) t.request_id, w)
  on_upstream t (Upstream.ok resp) w =
      let stored =
        s.store t.route.middleware.cache t.route.id t.req.method t.req.path t.req.query resp.status
          resp.headers resp.body resp.headers w in
      let built = build_upstream_response h e t.route.headers resp in
      (record built { headers = inject_request_id h e t.request_id built.headers }, stored)

  -- Stage 5, when the cache has not answered.
  unfoldable pub on_pool : Task → Option LoadBalancingConfig → s.W → HttpResponse h × s.W
  unfolding on_upstream error_response hash_key apply_request_mutations
  on_pool t none w =
      (error_response h e s.json 502 (codes "upstream not configured") t.request_id, w)
  on_pool t (some lb) w =
      let key = hash_key h t.route.load_balancing lb t.req.headers in
      let sent =
        s.send t.route.upstream (apply_request_mutations h e t.route.headers t.req) key w in
      on_upstream t sent.0 sent.1

  -- Stage 4: the cache's answer.
  unfoldable pub on_lookup : Task → CacheLookup → s.W → HttpResponse h × s.W
  unfolding on_pool build_cached_response inject_request_id
  on_lookup t (hit cached) w =
      let built = build_cached_response h e (s.now w) cached in
      (record built { headers = inject_request_id h e t.request_id built.headers }, w)
  on_lookup t miss w = on_pool t (s.get t.route.upstream w) w
  on_lookup t bypass w = on_pool t (s.get t.route.upstream w) w

  -- Stage 3, from whether the request is within its limit.
  unfoldable pub on_limit : Task → RateLimitOutcome → Bool → s.W → HttpResponse h × s.W
  unfolding on_lookup error_response with_headers to_headers
  on_limit t outcome false w =
      let resp = error_response h e s.json 429 (codes "rate limit exceeded") t.request_id in
      (record resp { headers = with_headers h e (to_headers outcome) resp.headers }, w)
  on_limit t outcome true w =
      let found =
        s.lookup t.route.middleware.cache t.route.id t.req.method t.req.path t.req.query
          t.req.headers w in
      on_lookup t found.0 found.1

  -- Stage 2: the outcome of the authentication.
  unfoldable pub on_auth :
      Task → Auth.Result AuthError (Option (AuthContext Value)) → s.W → HttpResponse h × s.W
  unfolding on_limit error_response status_code
  on_auth t (Auth.err er) w =
      (error_response h e s.json (status_code er) (s.auth_text er) t.request_id, w)
  on_auth t (Auth.ok ctx) w =
      let checked = s.check t.route.middleware.rate_limit t.route.id ctx t.req.headers w in
      let outcome = outcome_or_open checked.0 in on_limit t outcome outcome.allowed checked.1

  -- The gate before it. The permit is dropped when the response is made.
  unfoldable pub on_gate : Task → Acquired s.Permit → s.W → HttpResponse h × s.W
  unfolding on_auth append_headers
  on_gate t (busy resp) w = (
    record {
      status = resp.status;
      headers = append_headers h e resp.headers e.empty;
      body = resp.body;
    },
    w,
  )
  on_gate t (permit p) w =
      let ran = s.run_auth t.route.middleware.auth t.req.headers t.extensions w in
      let answer = on_auth t ran.0 ran.1 in (answer.0, s.drop_permit p answer.1)

  -- Stage 1: the route.
  unfoldable pub on_match :
      Request h → s.Extensions → Str → Option MatchedRoute → s.W → HttpResponse h × s.W
  unfolding on_gate error_response
  on_match req extensions id none w =
      (error_response h e s.json 404 (codes "no route matched") id, w)
  on_match req extensions id (some m) w =
      let gate = s.acquire m.route.id w in
      on_gate (record { req = req; extensions = extensions; request_id = id; route = m.route })
        gate.0 gate.1

  unfoldable pub request_id_of : Request h → s.W → Str
  request_id_of req w = or_uuid h (header_text h req.headers (codes "x-request-id")) (s.new_uuid w)

  unfoldable pub handle : Request h → s.Extensions → s.W → HttpResponse h × s.W
  unfolding on_match request_id_of
  handle req extensions w =
      on_match req extensions (request_id_of req w)
        (s.match_request req.path req.method req.headers w) w
