-- ===== src/Config/Validation/Laws.antt =====
-- What a configuration that passes validation.rs is good for.
use stateform.Prelude.{
  ◌≡◌, refl, sym, subst, ap, ◌∙◌, ◌++◌, ◌||◌, inl, inr, Bool, true, false, not, some, List, [], ◌∷◌,
  any, map, Memᴰ, All, arith, Bool-cases, Option-cases,
}
use stateform.Prelude.Text.{Str, str_eq, trim, is_empty}
use stateform.Config.Schema.{
  RouteConfig, UpstreamConfig, PathMatch, prefix, exact, regex, GatewayConfig,
}
use stateform.Http.{RegexApi}
use stateform.Config.Validation.{
  Checked, ok, err, and_then, refuse_if, Problem, contains_key, validate, validate_each_route,
  validate_pattern, validate_ids, validate_routes,
}
use stateform.Router.Table as Table
use stateform.Router.Table.{Router, add_route, add_routes, empty_router}
use stateform.Upstream.Pool as Pool
use stateform.Upstream.Pool.{UpstreamPool}

pub both : (a b : Checked) → and_then a b ≡ ok → (a ≡ ok) × (b ≡ ok)
both ok b e = (refl, e)
both (err p) b e = absurd (cc)

pub passed : (t : Bool) (p : Problem) → refuse_if t p ≡ ok → t ≡ false
passed false p e = refl
passed true p e = absurd (cc)

-- Each id differs from those of the later routes.
unfoldable pub DistinctIds : List RouteConfig → Type 0
DistinctIds [] = Unit
DistinctIds (route ∷ routes) = All (λ r. str_eq route.id r.id ≡ false) routes × DistinctIds routes

or_false : (a b : Bool) → (a || b) ≡ false → (a ≡ false) × (b ≡ false)
or_false a b h = ground arith

split-All :
    (id : Str) (seen : List Str) (routes : List RouteConfig)
    → All (λ r. any (λ k. str_eq k r.id) (id ∷ seen) ≡ false) routes
    → All (λ r. str_eq id r.id ≡ false) routes
      × All (λ r. any (λ k. str_eq k r.id) seen ≡ false) routes
split-All id seen [] h = (tt, tt)
split-All id seen (r ∷ routes) h =
    let (here, there) = or_false _ _ h.0 in
    let (one, two) = split-All id seen routes h.1 in ((here, one), (there, two))

ids-Distinct :
    (seen : List Str) (routes : List RouteConfig)
    → validate_ids seen routes ≡ ok
    → All (λ r. any (λ id. str_eq id r.id) seen ≡ false) routes × DistinctIds routes
unfolding validate_ids DistinctIds
ids-Distinct seen [] e = (tt, tt)
ids-Distinct seen (route ∷ routes) e =
    let (a, rest) = both _ _ e in
    let (later, distinct) = ids-Distinct (route.id ∷ seen) routes rest in
    let (differ, unseen) = split-All route.id seen routes later in
    ((passed _ _ a, unseen), (differ, distinct))

module _ (x : RegexApi) where
  -- What the first loop checks of a route.
  record Sound (upstreams : List (Str × UpstreamConfig)) (route : RouteConfig) : Type 0 where
    named : is_empty (trim route.id) ≡ false
    known : contains_key route.upstream upstreams ≡ true
    compiles : validate_pattern x route.id route.match_.path ≡ ok

  not-true : (b : Bool) → not b ≡ false → b ≡ true
  not-true b h = ground arith

  each-Sound :
      (upstreams : List (Str × UpstreamConfig)) (routes : List RouteConfig)
      → validate_each_route x upstreams routes ≡ ok
      → All (Sound upstreams) routes
  unfolding validate_each_route
  each-Sound upstreams [] e = tt
  each-Sound upstreams (route ∷ routes) e =
      let (a, rest) = both _ _ e in
      let (b, rest') = both _ _ rest in
      let (c, rest'') = both _ _ rest' in
      (
        record { named = passed _ _ a; known = not-true _ (passed _ _ b); compiles = c },
        each-Sound upstreams routes rest'',
      )

  add_route-ok :
      (id : Str) (p : PathMatch) (route : RouteConfig) (r : Router x)
      → validate_pattern x id p ≡ ok
      → (r' : Router x) × (add_route x p route r ≡ Table.ok r')
  unfolding validate_pattern add_route
  add_route-ok id (prefix v) route r e = (_, refl)
  add_route-ok id (exact v) route r e = (_, refl)
  add_route-ok id (regex pattern) route r e = elim (Option-cases (x.new pattern)) [
    | inl bad ↦ absurd (cc (rw (bad, validate_pattern) at e))
    | inr (re, good) ↦ (
      record r { regex_routes = r.regex_routes ++ record { route = route; regex = some re } ∷ [] },
      rw (good, add_route) refl,
    )
  ]

  add_routes-ok :
      (upstreams : List (Str × UpstreamConfig)) (routes : List RouteConfig) (r : Router x)
      → All (Sound upstreams) routes
      → (r' : Router x) × (add_routes x routes r ≡ Table.ok r')
  unfolding add_routes
  add_routes-ok upstreams [] r h = (r, refl)
  add_routes-ok upstreams (route ∷ routes) r h =
      let (next, added) = add_route-ok route.id route.match_.path route r h.0.compiles in
      let (last, rest) = add_routes-ok upstreams routes next h.1 in
      (
        last,
        ap
              (λ (o : Table.Result (Router x)). elim o [
                | Table.err e ↦ Table.err e
                | Table.ok r' ↦ add_routes x routes r'
              ])
              added
            ∙ rest,
      )

  -- The parts of a successful validation.
  validate-parts :
      (cfg : GatewayConfig)
      → validate x cfg ≡ ok
      → All (Sound cfg.upstreams) cfg.routes × (validate_ids [] cfg.routes ≡ ok)
  unfolding validate validate_routes
  validate-parts cfg e =
      let (a, rest) = both _ _ e in
      let (b, c) = both _ _ rest in
      let (routes, ids) = both _ _ b in (each-Sound cfg.upstreams cfg.routes routes, ids)

  -- A configuration that passes the checks builds a routing table: no pattern fails to compile
  -- then.
  pub validate-build :
      (cfg : GatewayConfig)
      → validate x cfg ≡ ok
      → (r : Router x) × (Table.build x cfg ≡ Table.ok r)
  unfolding Table.build
  validate-build cfg e =
      add_routes-ok cfg.upstreams cfg.routes (empty_router x) (validate-parts cfg e).0

  All-Memᴰ :
      (P : RouteConfig → Type 0) (l : List RouteConfig) {a : RouteConfig} → All P l → Memᴰ a l → P a
  All-Memᴰ P [] h m = elim m [ ]
  All-Memᴰ P (b ∷ l) h (Memᴰ.head same) = subst P (sym same) h.0
  All-Memᴰ P (b ∷ l) h (Memᴰ.tail m) = All-Memᴰ P l h.1 m

  get-known :
      (name : Str) (upstreams : List (Str × UpstreamConfig))
      → contains_key name upstreams ≡ true
      → (p : UpstreamPool) × (Pool.get name (map (λ u. (u.0, Pool.new u.0 u.1)) upstreams) ≡ some p)
  unfolding Pool.get
  get-known name [] h = absurd (cc)
  get-known name ((n, u) ∷ rest) h = elim (Bool-cases (str_eq n name)) [
    | inl same ↦ (Pool.new n u, rw (same, Pool.get) refl)
    | inr other ↦
        let (p, found) = get-known name rest (rw other at h) in (p, rw (other, Pool.get) found)
  ]

  -- Every route of a configuration that passes the checks leads to a pool of the registry built
  -- from it.
  pub validate-get :
      (cfg : GatewayConfig) (route : RouteConfig)
      → validate x cfg ≡ ok
      → Memᴰ route cfg.routes
      → (p : UpstreamPool) × (Pool.get route.upstream (Pool.build cfg) ≡ some p)
  unfolding Pool.build
  validate-get cfg route e inside =
      get-known route.upstream cfg.upstreams
        (All-Memᴰ (Sound cfg.upstreams) cfg.routes (validate-parts cfg e).0 inside).known

  -- The route ids of a configuration that passes the checks are pairwise different.
  pub validate-DistinctIds : (cfg : GatewayConfig) → validate x cfg ≡ ok → DistinctIds cfg.routes
  validate-DistinctIds cfg e = (ids-Distinct [] cfg.routes (validate-parts cfg e).1).1
