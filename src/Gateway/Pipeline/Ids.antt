-- ===== src/Gateway/Pipeline/Ids.antt =====
-- crates/gateway-core/src/pipeline.rs: the request id in the responses.
use stateform.Prelude.{
  ◌≡◌, refl, ap, ◌∙◌, ◌⊎◌, inl, inr, Bool, true, false, Option, none, some, List, [], ◌∷◌,
}
use stateform.Prelude.Text.{Str, codes, is_some}
use stateform.Config.Schema.{LoadBalancingConfig}
use stateform.Http.{HeaderApi, HeaderEdit}
use stateform.Auth.Context.{AuthContext}
use stateform.Auth.Error as Auth
use stateform.Auth.Error.{AuthError}
use stateform.Cache.Layer.{CacheLookup, hit, miss, bypass}
use stateform.RateLimit.Limiter.{RateLimitOutcome, to_headers}
use stateform.Router.Table.{MatchedRoute}
use stateform.Upstream.Retry as Upstream
use stateform.Gateway.Response.{Response}
use stateform.Gateway.Pipeline.Messages.{
  Request, HttpResponse, put_with, add_unless, with_headers, inject_request_id, error_response,
}
use stateform.Gateway.Pipeline.{
  Acquired, permit, busy, Stages, outcome_or_open, Task, on_upstream, on_pool, on_lookup, on_limit,
  on_auth, on_gate, on_match, request_id_of, handle,
}

module _ (h : HeaderApi) where
  abbrev pub HasId : h.HeaderMap → Type 0
  HasId m = is_some (h.get m (codes "x-request-id")) ≡ true

-- What is relied on of header maps: the name is one, an inserted header is found, and inserting another
-- leaves it.
pub record IdLaws (h : HeaderApi) (e : HeaderEdit h) : Type 0 where
  pub name : e.HeaderName
  pub is_name : e.from_bytes (codes "x-request-id") ≡ some name
  pub get_insert :
      (v : h.HeaderValue) (m : h.HeaderMap)
      → h.get (e.insert name v m) (codes "x-request-id") ≡ some v
  pub insert_keeps :
      (n : e.HeaderName) (v : h.HeaderValue) (m : h.HeaderMap)
      → HasId h m
      → HasId h (e.insert n v m)

module _ (h : HeaderApi) (e : HeaderEdit h) (laws : IdLaws h e) where
  put_with-HasId :
      (n : Option e.HeaderName) (v : Option h.HeaderValue) (m : h.HeaderMap)
      → HasId h m
      → HasId h (put_with h e e.insert n v m)
  put_with-HasId none v m has = has
  put_with-HasId (some n) none m has = has
  put_with-HasId (some n) (some v) m has = laws.insert_keeps n v m has

  with_headers-HasId :
      (l : List (Str × Str)) (m : h.HeaderMap) → HasId h m → HasId h (with_headers h e l m)
  unfolding with_headers
  with_headers-HasId [] m has = has
  with_headers-HasId ((k, v) ∷ l) m has =
      with_headers-HasId l (put_with h e e.insert (e.from_bytes k) (e.from_str v) m)
        (put_with-HasId (e.from_bytes k) (e.from_str v) m has)

  pub inject-HasId :
      (id : Str) (v : h.HeaderValue) (m : h.HeaderMap)
      → e.from_str id ≡ some v
      → HasId h (inject_request_id h e id m)
  unfolding inject_request_id
  inject-HasId id v m valid = go (is_some (h.get m (codes "x-request-id"))) refl
    where
      added : h.get (add_unless h e false (e.from_str id) m) (codes "x-request-id") ≡ some v
      added =
          ap (λ o. h.get (put_with h e e.insert o (e.from_str id) m) (codes "x-request-id"))
            laws.is_name
          ∙ ap (λ o. h.get (put_with h e e.insert (some laws.name) o m) (codes "x-request-id"))
              valid
          ∙ laws.get_insert v m

      go :
          (b : Bool)
          → is_some (h.get m (codes "x-request-id")) ≡ b
          → HasId h (add_unless h e b (e.from_str id) m)
      go true there = there
      go false gone = ap is_some added

  module _ (Value : Type 0) (s : Stages h Value) (v : h.HeaderValue) where
    -- The id of the request can stand in a header.
    abbrev Valid : Task h e Value s → Type 0
    Valid t = e.from_str t.request_id ≡ some v

    on_upstream-HasId :
        (t : Task h e Value s) (r : Upstream.Result (HttpResponse h)) (w : s.W)
        → Valid t
        → HasId h (on_upstream h e Value s t r w).0.headers
    unfolding on_upstream error_response
    on_upstream-HasId t (Upstream.err er) w valid = inject-HasId t.request_id v _ valid
    on_upstream-HasId t (Upstream.ok resp) w valid = inject-HasId t.request_id v _ valid

    on_pool-HasId :
        (t : Task h e Value s) (o : Option LoadBalancingConfig) (w : s.W)
        → Valid t
        → HasId h (on_pool h e Value s t o w).0.headers
    unfolding on_pool error_response
    on_pool-HasId t none w valid = inject-HasId t.request_id v _ valid
    on_pool-HasId t (some lb) w valid = on_upstream-HasId t _ _ valid

    on_lookup-HasId :
        (t : Task h e Value s) (c : CacheLookup) (w : s.W)
        → Valid t
        → HasId h (on_lookup h e Value s t c w).0.headers
    unfolding on_lookup
    on_lookup-HasId t (hit cached) w valid = inject-HasId t.request_id v _ valid
    on_lookup-HasId t miss w valid = on_pool-HasId t _ w valid
    on_lookup-HasId t bypass w valid = on_pool-HasId t _ w valid

    on_limit-HasId :
        (t : Task h e Value s) (o : RateLimitOutcome) (b : Bool) (w : s.W)
        → Valid t
        → HasId h (on_limit h e Value s t o b w).0.headers
    unfolding on_limit error_response
    on_limit-HasId t o false w valid =
        with_headers-HasId (to_headers o) _ (inject-HasId t.request_id v _ valid)
    on_limit-HasId t o true w valid = on_lookup-HasId t _ _ valid

    on_auth-HasId :
        (t : Task h e Value s) (r : Auth.Result AuthError (Option (AuthContext Value))) (w : s.W)
        → Valid t
        → HasId h (on_auth h e Value s t r w).0.headers
    unfolding on_auth error_response
    on_auth-HasId t (Auth.err er) w valid = inject-HasId t.request_id v _ valid
    on_auth-HasId t (Auth.ok ctx) w valid =
        on_limit-HasId t
          (outcome_or_open (s.check t.route.middleware.rate_limit t.route.id ctx t.req.headers w).0)
          _ _ valid

    on_gate-HasId :
        (t : Task h e Value s) (g : Acquired s.Permit) (w : s.W)
        → Valid t
        → HasId h (on_gate h e Value s t g w).0.headers ⊎ ((resp : Response) × (g ≡ busy resp))
    unfolding on_gate
    on_gate-HasId t (busy r) w valid = inr (r, refl)
    on_gate-HasId t (permit p) w valid = inl (on_auth-HasId t _ _ valid)

    -- If the request's id can stand in a header, the response has an x-request-id header,
    -- whichever stage made it, unless a route matched and the concurrency gate refused the
    -- request.
    pub handle-HasId :
        (req : Request h) (x : s.Extensions) (w : s.W)
        → e.from_str (request_id_of h e Value s req w) ≡ some v
        → HasId h (handle h e Value s req x w).0.headers
          ⊎ ((m : MatchedRoute) × (resp : Response) × (s.match_request req.path req.method
                  req.headers w
                ≡ some m)
              × ((s.acquire m.route.id w).0 ≡ busy resp))
    unfolding handle on_match error_response
    handle-HasId req x w valid = go (s.match_request req.path req.method req.headers w) refl
      where
        go :
            (o : Option MatchedRoute)
            → s.match_request req.path req.method req.headers w ≡ o
            → HasId h (on_match h e Value s req x (request_id_of h e Value s req w) o w).0.headers
              ⊎ ((m : MatchedRoute) × (resp : Response) × (s.match_request req.path req.method
                      req.headers w
                    ≡ some m)
                  × ((s.acquire m.route.id w).0 ≡ busy resp))
        go none routed = inl (inject-HasId _ v _ valid)
        go (some m) routed =
            elim (on_gate-HasId
              (record {
                req = req;
                extensions = x;
                request_id = request_id_of h e Value s req w;
                route = m.route;
              })
              (s.acquire m.route.id w).0 (s.acquire m.route.id w).1 valid) [
                | inl has ↦ inl has
                | inr (resp, refused) ↦ inr (m, resp, routed, refused)
              ]
