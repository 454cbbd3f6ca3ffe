-- ===== src/Gateway/Pipeline/Asks.antt =====
-- crates/gateway-core/src/pipeline.rs: when `handle` sends a request to an upstream.
use stateform.Prelude.{
  ℕ, suc, ◌≡◌, refl, ap, ◌∙◌, ◌⊎◌, inl, inr, Bool, true, false, Option, none, some,
}
use stateform.Prelude.Text.{Str}
use stateform.Config.Schema.{LoadBalancingConfig}
use stateform.Http.{HeaderApi, HeaderEdit}
use stateform.Auth.Context.{AuthContext}
use stateform.Auth.Error as Auth
use stateform.Auth.Error.{AuthError}
use stateform.Cache.Entry.{CachedResponse}
use stateform.Cache.Layer.{CacheLookup, hit, miss, bypass}
use stateform.RateLimit.L2Redis as RateLimit
use stateform.RateLimit.Limiter.{RateLimitOutcome}
use stateform.Router.Table.{MatchedRoute}
use stateform.Gateway.Pipeline.Messages.{Request, HttpResponse}
use stateform.Gateway.Pipeline.{
  Acquired, permit, busy, Stages, outcome_or_open, Task, on_pool, on_lookup, on_limit, on_auth,
  on_gate, on_match, request_id_of, handle,
}
use stateform.Gateway.Pipeline.Effects.{AskLaws, on_upstream-count}

module _ (h : HeaderApi) (e : HeaderEdit h) (Value : Type 0) (s : Stages h Value) where
  -- The gates in their order, each in the state that the one before it leaves. First the cache, which
  -- has no answer, and the pool.
  pub record Uncached (t : Task h e Value s) (w : s.W) : Type 0 where
    pub found : CacheLookup
    pub after : s.W
    pub looked_up :
        s.lookup t.route.middleware.cache t.route.id t.req.method t.req.path t.req.query
          t.req.headers w
        ≡ (found, after)
    pub not_cached : (c : CachedResponse) → found ≡ hit c → ⊥
    pub lb : LoadBalancingConfig
    pub pool : s.get t.route.upstream after ≡ some lb

  -- The limit.
  pub record Within (t : Task h e Value s) (ctx : Option (AuthContext Value)) (w : s.W)
      : Type 0 where
    pub outcome : RateLimit.Result RateLimitOutcome
    pub after : s.W
    pub checked :
        s.check t.route.middleware.rate_limit t.route.id ctx t.req.headers w ≡ (outcome, after)
    pub allowed : (outcome_or_open outcome).allowed ≡ true
    pub uncached : Uncached t after

  -- The authentication.
  pub record Authenticated (t : Task h e Value s) (w : s.W) : Type 0 where
    pub ctx : Option (AuthContext Value)
    pub after : s.W
    pub ran : s.run_auth t.route.middleware.auth t.req.headers t.extensions w ≡ (Auth.ok ctx, after)
    pub limit : Within t ctx after

  -- The route and the permit.
  pub record Admitted (req : Request h) (x : s.Extensions) (id : Str) (w : s.W) : Type 0 where
    pub m : MatchedRoute
    pub p : s.Permit
    pub after : s.W
    pub routed : s.match_request req.path req.method req.headers w ≡ some m
    pub acquired : s.acquire m.route.id w ≡ (permit p, after)
    pub authenticated :
        Authenticated (record { req = req; extensions = x; request_id = id; route = m.route }) after

  module _ (asked : s.W → ℕ) (laws : AskLaws s asked) where
    -- The upstreams are asked nothing, or once and then with what is shown of it.
    abbrev Asks : HttpResponse h × s.W → s.W → Type 0 → Type 0
    Asks answer w Shown = (asked answer.1 ≡ asked w) ⊎ ((asked answer.1 ≡ suc (asked w)) × Shown)

    on_pool-asks :
        (t : Task h e Value s) (o : Option LoadBalancingConfig) (w : s.W)
        → Asks (on_pool h e Value s t o w) w ((lb : LoadBalancingConfig) × (o ≡ some lb))
    unfolding on_pool
    on_pool-asks t none w = inl refl
    on_pool-asks t (some lb) w =
        inr
          (on_upstream-count h e Value s asked laws.others t _ _ ∙ laws.by_send _ _ _ w, (lb, refl))

    on_lookup-asks :
        (t : Task h e Value s) (c : CacheLookup) (w : s.W)
        → Asks (on_lookup h e Value s t c w) w (
            ((r : CachedResponse) → c ≡ hit r → ⊥)
            × ((lb : LoadBalancingConfig) × (s.get t.route.upstream w ≡ some lb)))
    unfolding on_lookup
    on_lookup-asks t (hit cached) w = inl refl
    on_lookup-asks t miss w = elim (on_pool-asks t (s.get t.route.upstream w) w) [
      | inl same ↦ inl same
      | inr (once, known) ↦ inr (once, ((λ r k. absurd (cc)), known))
    ]
    on_lookup-asks t bypass w = elim (on_pool-asks t (s.get t.route.upstream w) w) [
      | inl same ↦ inl same
      | inr (once, known) ↦ inr (once, ((λ r k. absurd (cc)), known))
    ]

    on_limit-asks :
        (t : Task h e Value s) (o : RateLimitOutcome) (b : Bool) (w : s.W)
        → Asks (on_limit h e Value s t o b w) w ((b ≡ true) × Uncached t w)
    unfolding on_limit
    on_limit-asks t o false w = inl refl
    on_limit-asks t o true w =
        let found =
          s.lookup t.route.middleware.cache t.route.id t.req.method t.req.path t.req.query
            t.req.headers w in
        let still =
          laws.others.by_lookup t.route.middleware.cache t.route.id t.req.method t.req.path
            t.req.query t.req.headers w in
        elim (on_lookup-asks t found.0 found.1) [
          | inl same ↦ inl (same ∙ still)
          | inr (once, (fresh, (lb, pool))) ↦ inr (
            once ∙ ap suc still,
            (
              refl,
              record {
                found = found.0;
                after = found.1;
                looked_up = refl;
                not_cached = fresh;
                lb = lb;
                pool = pool;
              },
            ),
          )
        ]

    on_auth-asks :
        (t : Task h e Value s) (r : Auth.Result AuthError (Option (AuthContext Value))) (w : s.W)
        → Asks
            (on_auth h e Value s t r w)
            w
            ((ctx : Option (AuthContext Value)) × (r ≡ Auth.ok ctx) × Within t ctx w)
    unfolding on_auth
    on_auth-asks t (Auth.err er) w = inl refl
    on_auth-asks t (Auth.ok ctx) w =
        let checked = s.check t.route.middleware.rate_limit t.route.id ctx t.req.headers w in
        let still =
          laws.others.by_check t.route.middleware.rate_limit t.route.id ctx t.req.headers w in
        let outcome : RateLimitOutcome = outcome_or_open checked.0 in
        elim (on_limit-asks t outcome outcome.allowed checked.1) [
          | inl same ↦ inl (same ∙ still)
          | inr (once, (allowed, uncached)) ↦ inr (
            once ∙ ap suc still,
            (
              ctx,
              refl,
              record {
                outcome = checked.0;
                after = checked.1;
                checked = refl;
                allowed = allowed;
                uncached = uncached;
              },
            ),
          )
        ]

    on_gate-asks :
        (t : Task h e Value s) (g : Acquired s.Permit) (w : s.W)
        → Asks (on_gate h e Value s t g w) w ((p : s.Permit) × (g ≡ permit p) × Authenticated t w)
    unfolding on_gate
    on_gate-asks t (busy r) w = inl refl
    on_gate-asks t (permit p) w =
        let ran = s.run_auth t.route.middleware.auth t.req.headers t.extensions w in
        let still = laws.others.by_auth t.route.middleware.auth t.req.headers t.extensions w in
        elim (on_auth-asks t ran.0 ran.1) [
          | inl same ↦ inl (laws.by_drop p _ ∙ same ∙ still)
          | inr (once, (ctx, passed, limit)) ↦ inr (
            laws.by_drop p _ ∙ once ∙ ap suc still,
            (
              p,
              refl,
              record { ctx = ctx; after = ran.1; ran = ap (λ r. (r, ran.1)) passed; limit = limit },
            ),
          )
        ]

    on_match-asks :
        (req : Request h) (x : s.Extensions) (id : Str) (o : Option MatchedRoute) (w : s.W)
        → s.match_request req.path req.method req.headers w ≡ o
        → Asks (on_match h e Value s req x id o w) w (Admitted req x id w)
    unfolding on_match
    on_match-asks req x id none w routed = inl refl
    on_match-asks req x id (some m) w routed =
        let gate = s.acquire m.route.id w in
        elim (on_gate-asks (record { req = req; extensions = x; request_id = id; route = m.route })
          gate.0 gate.1) [
            | inl same ↦ inl (same ∙ laws.by_acquire m.route.id w)
            | inr (once, (p, held, authenticated)) ↦ inr (
              once ∙ ap suc (laws.by_acquire m.route.id w),
              record {
                m = m;
                p = p;
                after = gate.1;
                routed = routed;
                acquired = ap (λ g. (g, gate.1)) held;
                authenticated = authenticated;
              },
            )
          ]

    -- Where only a send counts as a request to an upstream, handling a request sends it at most
    -- once, and only after a route matched, a permit was given, the authentication passed, the
    -- limiter allowed it, the cache had no answer and the registry had the pool, each in the
    -- state that the stage before it left.
    pub handle-asks :
        (req : Request h) (x : s.Extensions) (w : s.W)
        → (asked (handle h e Value s req x w).1 ≡ asked w)
          ⊎ ((asked (handle h e Value s req x w).1 ≡ suc (asked w))
              × Admitted req x (request_id_of h e Value s req w) w)
    unfolding handle
    handle-asks req x w = on_match-asks req x (request_id_of h e Value s req w) _ w refl
