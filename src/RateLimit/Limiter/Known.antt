-- ===== src/RateLimit/Limiter/Known.antt =====
-- crates/gateway-ratelimit/src/limiter.rs on a configuration that crates/gateway-config has checked.
use stateform.Prelude.{
  ◌≡◌, refl, sym, ap, subst, ◌∙◌, Bool, true, false, not, ◌||◌, Option, none, some, List, [], ◌∷◌,
  Memᴰ, Bool-cases, inl, inr, if◌then◌else◌,
}
use stateform.Prelude.Text.{Str, str_eq}
use stateform.Config.Schema.{RouteConfig, RateLimitPolicy, RateLimitMiddlewareRef, GatewayConfig}
use stateform.Config.Validation.{
  Checked, and_then, refuse_if, contains_key, validate, validate_policy, validate_routes,
  validate_upstreams, validate_rate_limit_refs,
}
use stateform.Config.Validation as Validation
use stateform.Config.Validation.Laws.{both, passed}
use stateform.Http.{HeaderApi, RegexApi}
use stateform.Auth.Context.{AuthContext}
use stateform.RateLimit.Key.{derive_key}
use stateform.RateLimit.L1Local as L1
use stateform.RateLimit.Float.{FloatApi}
use stateform.RateLimit.L2Redis.{ScriptApi, ok, err}
use stateform.RateLimit.Limiter.{
  RateLimitOutcome, unlimited, Policy, RateLimiter, Reading, find_policy, add_policy, new_policies,
  with_policies, new, with_policy, check, check_policy,
}

-- The reference of each route that the last pass has seen.
refs-known :
    (policies : List (Str × RateLimitPolicy)) (routes : List RouteConfig) {route : RouteConfig}
    → validate_rate_limit_refs policies routes ≡ Validation.ok
    → Memᴰ route routes
    → validate_policy policies route.id route.middleware.rate_limit ≡ Validation.ok
unfolding validate_rate_limit_refs
refs-known policies [] e m = elim m [ ]
refs-known policies (r ∷ routes) e (Memᴰ.head same) = rw same (both _ _ e).0
refs-known policies (r ∷ routes) e (Memᴰ.tail m) = refs-known policies routes (both _ _ e).1 m

policy-known :
    (policies : List (Str × RateLimitPolicy)) (id : Str) (o : Option RateLimitMiddlewareRef)
    {rl : RateLimitMiddlewareRef}
    → o ≡ some rl
    → validate_policy policies id o ≡ Validation.ok
    → contains_key rl.policy policies ≡ true
unfolding validate_policy str_eq
policy-known policies id o {rl} named e =
    not_false _ (passed _ _ (sym (ap (λ m. validate_policy policies id m) named) ∙ e))
  where
    not_false : (b : Bool) → not b ≡ false → b ≡ true
    not_false true h = refl
    not_false false h = absurd (cc)

module _ (f : FloatApi) (s : ScriptApi f) where
  -- A policy that the configuration names is in a limiter built from it.
  find-known :
      (url name : Str) (policies : List (Str × RateLimitPolicy)) {built : List (Str × Policy f)}
      → new_policies f s url policies ≡ ok built
      → contains_key name policies ≡ true
      → (p : Policy f) × (find_policy f built name ≡ some p)
  unfolding new_policies add_policy find_policy
  find-known url name [] e h = absurd (cc)
  find-known url name ((n, cfg) ∷ policies) {built} e h =
      go (s.connect url) (new_policies f s url policies) e
        (λ b b_is. find-known url name policies b_is)
    where
      on_top :
          (q : Policy f) (b : List (Str × Policy f))
          → (contains_key name policies ≡ true → (p : Policy f) × (find_policy f b name ≡ some p))
          → (p : Policy f) × (find_policy f ((n, q) ∷ b) name ≡ some p)
      on_top q b ih = elim (Bool-cases (str_eq n name)) [
        | inl hit ↦ (q, ap (λ c. if c then some q else find_policy f b name) hit)
        | inr miss ↦
            let (p, found) = ih (sym (ap (λ c. c || contains_key name policies) miss) ∙ h) in
            (p, ap (λ c. if c then some q else find_policy f b name) miss ∙ found)
      ]

      go :
          (c : Option Str) (rest : _)
          → add_policy f s c n cfg rest ≡ ok built
          → ((b : List (Str × Policy f))
              → rest ≡ ok b
              → contains_key name policies ≡ true
              → (p : Policy f) × (find_policy f b name ≡ some p))
          → (p : Policy f) × (find_policy f built name ≡ some p)
      go (some m) rest e ih = absurd (cc)
      go none (err m) e ih = absurd (cc)
      go none (ok b) e ih =
          let q : Policy f = record { l1 = L1.new f cfg.local; l2 = cfg.distributed } in
          let same : (n, q) ∷ b ≡ built = cc in
          subst (λ l. (p : Policy f) × (find_policy f l name ≡ some p)) same
            (on_top q b (ih b refl))

module _ (x : RegexApi) (h : HeaderApi) (Value : Type 0) (f : FloatApi) (s : ScriptApi f) where
  -- On a limiter built from a configuration that passes the checks, the check of every route of
  -- the configuration gives an outcome: no route names a policy that the limiter lacks.
  pub check-ok :
      (cfg : GatewayConfig) (route : RouteConfig) (rl : RateLimiter f) (r : Reading f)
      (conn : s.Conn) (auth_ctx : Option (AuthContext Value)) (headers : h.HeaderMap)
      → validate x cfg ≡ Validation.ok
      → new f s cfg ≡ ok rl
      → Memᴰ route cfg.routes
      → (outcome : RateLimitOutcome) × ((check h Value f s rl r conn route.middleware.rate_limit
            route.id auth_ctx headers).0
          ≡ ok outcome)
  unfolding validate new check with_policy
  check-ok cfg route rl r conn auth_ctx headers valid built inside =
      go route.middleware.rate_limit refl
    where
      refs : validate_rate_limit_refs cfg.rate_limiting.policies cfg.routes ≡ Validation.ok
      refs =
          (both (validate_routes x cfg)
            (validate_rate_limit_refs cfg.rate_limiting.policies cfg.routes)
            (both (validate_upstreams cfg.upstreams)
              (and_then (validate_routes x cfg)
                (validate_rate_limit_refs cfg.rate_limiting.policies cfg.routes))
              valid).1).1

      of_limiter :
          (o : _)
          → new_policies f s cfg.rate_limiting.redis_url cfg.rate_limiting.policies ≡ o
          → with_policies f s o ≡ ok rl
          → o ≡ ok rl.policies
      of_limiter (err e) same h = absurd (cc)
      of_limiter (ok b) same h =
          let top : record { policies = b } ≡ rl = cc in ap (λ k. ok (RateLimiter.policies k)) top

      go :
          (m : Option RateLimitMiddlewareRef)
          → route.middleware.rate_limit ≡ m
          → (outcome : RateLimitOutcome) × ((check h Value f s rl r conn m route.id auth_ctx
                headers).0
              ≡ ok outcome)
      go none named = (unlimited, refl)
      go (some ref) named =
          let key = derive_key h Value route.id auth_ctx headers in
          let known =
            policy-known cfg.rate_limiting.policies route.id route.middleware.rate_limit named
              (refs-known cfg.rate_limiting.policies cfg.routes refs inside) in
          let (p, found) =
            find-known f s cfg.rate_limiting.redis_url ref.policy cfg.rate_limiting.policies
              (of_limiter (new_policies f s cfg.rate_limiting.redis_url cfg.rate_limiting.policies)
                refl built)
              known in
          (
            (check_policy f s p key r conn).0,
            ap (λ o. (with_policy h Value f s rl key r conn ref.policy o).0) found,
          )
