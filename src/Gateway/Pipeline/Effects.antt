-- ===== src/Gateway/Pipeline/Effects.antt =====
-- crates/gateway-core/src/pipeline.rs: what `handle` does to the permits and to the upstreams,
-- whatever the stages answer. What it relies on of a stage is a law of the count.
use stateform.Prelude.{
  ℕ, suc, ◌+◌, ◌≡◌, refl, ap, ◌∙◌, Bool, true, false, Option, none, some, List, arith,
}
use stateform.Prelude.Text.{Str}
use stateform.Config.Schema.{LoadBalancingConfig}
use stateform.Http.{HeaderApi, HeaderEdit}
use stateform.Auth.Context.{AuthContext}
use stateform.Auth.Error as Auth
use stateform.Auth.Error.{AuthError}
use stateform.Cache.Layer.{CacheLookup, hit, miss, bypass}
use stateform.RateLimit.Limiter.{RateLimitOutcome}
use stateform.Router.Table.{MatchedRoute}
use stateform.Upstream.Retry as Upstream
use stateform.Gateway.Pipeline.Messages.{Request, HttpResponse}
use stateform.Gateway.Pipeline.{
  Acquired, permit, busy, Stages, outcome_or_open, Task, on_upstream, on_pool, on_lookup, on_limit,
  on_auth, on_gate, on_match, request_id_of, handle,
}

module _ {h : HeaderApi} {Value : Type 0} (s : Stages h Value) where
  -- A count of the shared state that the authentication, the limiter and the cache leave alone.
  pub record Untouched (count : s.W → ℕ) : Type 0 where
    pub by_auth :
        (cfg : _) (m : h.HeaderMap) (x : s.Extensions) (w : s.W)
        → count (s.run_auth cfg m x w).1 ≡ count w
    pub by_check :
        (cfg : _) (id : Str) (ctx : _) (m : h.HeaderMap) (w : s.W)
        → count (s.check cfg id ctx m w).1 ≡ count w
    pub by_lookup :
        (cfg : _) (id method path : Str) (q : Option Str) (m : h.HeaderMap) (w : s.W)
        → count (s.lookup cfg id method path q m w).1 ≡ count w
    pub by_store :
        (cfg : _) (id method path : Str) (q : Option Str) (status : ℕ) (m : h.HeaderMap)
        (body : List ℕ) (n : h.HeaderMap) (w : s.W)
        → count (s.store cfg id method path q status m body n w) ≡ count w

  abbrev pub taken : Acquired s.Permit → ℕ
  taken (permit p) = 1
  taken (busy r) = 0

  -- The permits that are free.
  pub record PermitLaws (free : s.W → ℕ) : Type 0 where
    pub others : Untouched free
    pub by_send :
        (name : Str) (r : Request h) (k : Option Str) (w : s.W)
        → free (s.send name r k w).1 ≡ free w
    pub by_acquire :
        (id : Str) (w : s.W) → taken (s.acquire id w).0 + free (s.acquire id w).1 ≡ free w
    pub by_drop : (p : s.Permit) (w : s.W) → free (s.drop_permit p w) ≡ suc (free w)

  -- The requests that the upstreams have been sent.
  pub record AskLaws (asked : s.W → ℕ) : Type 0 where
    pub others : Untouched asked
    pub by_send :
        (name : Str) (r : Request h) (k : Option Str) (w : s.W)
        → asked (s.send name r k w).1 ≡ suc (asked w)
    pub by_acquire : (id : Str) (w : s.W) → asked (s.acquire id w).1 ≡ asked w
    pub by_drop : (p : s.Permit) (w : s.W) → asked (s.drop_permit p w) ≡ asked w

module _ (h : HeaderApi) (e : HeaderEdit h) (Value : Type 0) (s : Stages h Value) where
  pub on_upstream-count :
      (count : s.W → ℕ) (u : Untouched s count) (t : Task h e Value s)
      (r : Upstream.Result (HttpResponse h)) (w : s.W)
      → count (on_upstream h e Value s t r w).1 ≡ count w
  unfolding on_upstream
  on_upstream-count count u t (Upstream.err er) w = refl
  on_upstream-count count u t (Upstream.ok resp) w = u.by_store _ _ _ _ _ _ _ _ _ w

  module _ (free : s.W → ℕ) (laws : PermitLaws s free) where
    on_pool-free :
        (t : Task h e Value s) (lb : Option LoadBalancingConfig) (w : s.W)
        → free (on_pool h e Value s t lb w).1 ≡ free w
    unfolding on_pool
    on_pool-free t none w = refl
    on_pool-free t (some lb) w = on_upstream-count free laws.others t _ _ ∙ laws.by_send _ _ _ w

    on_lookup-free :
        (t : Task h e Value s) (c : CacheLookup) (w : s.W)
        → free (on_lookup h e Value s t c w).1 ≡ free w
    unfolding on_lookup
    on_lookup-free t (hit cached) w = refl
    on_lookup-free t miss w = on_pool-free t _ w
    on_lookup-free t bypass w = on_pool-free t _ w

    on_limit-free :
        (t : Task h e Value s) (o : RateLimitOutcome) (b : Bool) (w : s.W)
        → free (on_limit h e Value s t o b w).1 ≡ free w
    unfolding on_limit
    on_limit-free t o false w = refl
    on_limit-free t o true w = on_lookup-free t _ _ ∙ laws.others.by_lookup _ _ _ _ _ _ w

    on_auth-free :
        (t : Task h e Value s) (r : Auth.Result AuthError (Option (AuthContext Value))) (w : s.W)
        → free (on_auth h e Value s t r w).1 ≡ free w
    unfolding on_auth
    on_auth-free t (Auth.err er) w = refl
    on_auth-free t (Auth.ok ctx) w =
        on_limit-free t
          (outcome_or_open (s.check t.route.middleware.rate_limit t.route.id ctx t.req.headers w).0)
          _ _
        ∙ laws.others.by_check _ _ _ _ w

    on_gate-free :
        (t : Task h e Value s) (g : Acquired s.Permit) (w : s.W)
        → free (on_gate h e Value s t g w).1 ≡ taken s g + free w
    unfolding on_gate
    on_gate-free t (busy r) w = omega arith
    on_gate-free t (permit p) w =
        laws.by_drop p _ ∙ ap suc (on_auth-free t _ _ ∙ laws.others.by_auth _ _ _ w) ∙ omega arith

    on_match-free :
        (req : Request h) (x : s.Extensions) (id : Str) (m : Option MatchedRoute) (w : s.W)
        → free (on_match h e Value s req x id m w).1 ≡ free w
    unfolding on_match
    on_match-free req x id none w = refl
    on_match-free req x id (some m) w =
        on_gate-free (record { req = req; extensions = x; request_id = id; route = m.route }) _ _
        ∙ laws.by_acquire m.route.id w

    -- Where acquire takes one from the count of free permits if and only if it gives a permit,
    -- dropping a permit gives one back, and the other stages leave the count, handling a
    -- request leaves it as it was on every path, errors and refusals included.
    pub handle-free :
        (req : Request h) (x : s.Extensions) (w : s.W)
        → free (handle h e Value s req x w).1 ≡ free w
    unfolding handle
    handle-free req x w =
        on_match-free req x (request_id_of h e Value s req w)
          (s.match_request req.path req.method req.headers w) w
