-- ===== src/Router/Table/Sound.antt =====
-- The answers of `match_request` of crates/gateway-router/src/router.rs.
use mathlib.Core.List
use mathlib.Core.List.{reverse-cons}
use stateform.Prelude.{
  ◌≡◌, refl, sym, ap, ◌∙◌, subst, inl, inr, ◌⊎◌, true, Option, none, some, List, [], ◌∷◌, Memᴰ,
  Memᴰ-keep, first, reverse, arith, Bool-cases, Option-cases, if◌then◌else◌,
}
use stateform.Prelude.Text.{Str}
use stateform.Config.Schema.{RouteConfig, PathMatch, exact, prefix, regex, GatewayConfig}
use stateform.Http.{HeaderApi, RegexApi}
use stateform.Router.Trie.Laws.{prefixes, flat}
use stateform.Router.Table.{
  matched, CompiledRoute, Router, MatchedRoute, ok, build, passes, match_request, match_exact,
  match_prefix, match_regex, named_params, first_match,
}
use stateform.Router.Table.Spec.{
  path_keys, exact_at, prefix_at, exact_routes, prefix_routes, compiled, compiled_routes,
  match_spec,
}
use stateform.Router.Table.Refines.{match_request-refines}

Memᴰ-reverse : (l : List RouteConfig) {a : RouteConfig} → Memᴰ a (reverse l) → Memᴰ a l
Memᴰ-reverse [] m = elim m [ ]
Memᴰ-reverse (x ∷ l) {a} m =
    elim (List.Memᴰ.append_cases (reverse l) (subst (λ k. Memᴰ a k) (reverse-cons x l) m)) [
      | inl there ↦ Memᴰ.tail (Memᴰ-reverse l there)
      | inr here ↦ Memᴰ.head (List.Memᴰ.eq_of_singleton here)
    ]

Memᴰ-first : (l : List RouteConfig) {a : RouteConfig} → first l ≡ some a → Memᴰ a l
Memᴰ-first [] h = absurd (cc)
Memᴰ-first (x ∷ xs) h = Memᴰ.head (cc)

Memᴰ-flat :
    (f : List Str → List RouteConfig) (all : List RouteConfig) (qs : List (List Str))
    {a : RouteConfig}
    → ((q : List Str) → Memᴰ a (f q) → Memᴰ a all)
    → Memᴰ a (flat f qs)
    → Memᴰ a all
unfolding flat
Memᴰ-flat f all [] h m = elim m [ ]
Memᴰ-flat f all (q ∷ qs) h m = elim (List.Memᴰ.append_cases (f q) m) [
  | inl here ↦ h q here
  | inr there ↦ Memᴰ-flat f all qs h there
]

module _ (x : RegexApi) where
  Memᴰ-compiled :
      (p : PathMatch) (route : RouteConfig) {c : CompiledRoute x}
      → Memᴰ c (compiled x p route)
      → c.route ≡ route
  unfolding compiled
  Memᴰ-compiled (exact v) route m = elim m [ ]
  Memᴰ-compiled (prefix v) route m = elim m [ ]
  Memᴰ-compiled (regex pattern) route {c} m = go (x.new pattern) m
    where
      go :
          (o : Option x.Regex)
          → Memᴰ c (elim o [ none ↦ [] | some re ↦ record { route = route; regex = some re } ∷ [] ])
          → c.route ≡ route
      go none m = elim m [ ]
      go (some re) m = ap (λ (k : CompiledRoute x). k.route) (List.Memᴰ.eq_of_singleton m)

  Memᴰ-compiled_routes :
      (routes : List RouteConfig) {c : CompiledRoute x}
      → Memᴰ c (compiled_routes x routes)
      → Memᴰ c.route routes
  unfolding compiled_routes
  Memᴰ-compiled_routes [] m = elim m [ ]
  Memᴰ-compiled_routes (r ∷ routes) m =
      elim (List.Memᴰ.append_cases (compiled x r.match_.path r) m) [
        | inl here ↦ Memᴰ.head (Memᴰ-compiled r.match_.path r here)
        | inr there ↦ Memᴰ.tail (Memᴰ-compiled_routes routes there)
      ]

module _ (h : HeaderApi) (x : RegexApi) (method : Str) (headers : h.HeaderMap) where
  -- A configured route that lets the request pass.
  abbrev pub Serves : List RouteConfig → RouteConfig → Type 0
  Serves routes route = Memᴰ route routes × (passes h x method headers route ≡ true)

  match_exact-Serves :
      (o : Option RouteConfig) (m : MatchedRoute)
      → match_exact h x method headers o ≡ some m
      → (o ≡ some m.route) × (passes h x method headers m.route ≡ true)
  unfolding match_exact
  match_exact-Serves none m e = absurd (cc)
  match_exact-Serves (some route) m e = ground arith

  match_prefix-Serves :
      (l : List RouteConfig) (m : MatchedRoute)
      → match_prefix h x method headers l ≡ some m
      → Serves l m.route
  unfolding match_prefix
  match_prefix-Serves [] m e = absurd (cc)
  match_prefix-Serves (r ∷ l) m e = elim (Bool-cases (passes h x method headers r)) [
    | inl fits ↦
        let e' : some (matched r) ≡ some m = rw (fits, match_prefix) at e in
        let same : m.route ≡ r = cc in (Memᴰ.head same, ap (passes h x method headers) same ∙ fits)
    | inr fails ↦
        let (inside, good) = match_prefix-Serves l m (rw (fails, match_prefix) at e) in
        (Memᴰ.tail inside, good)
  ]

  -- A round of the loop over the regex routes either answers with its own route or goes on.
  regex_round :
      (path : Str) (route : RouteConfig) (o : Option x.Regex) (next : Option MatchedRoute)
      (m : MatchedRoute)
      → (elim o [
        | none ↦ next
        | some re ↦ elim (x.captures re path) [
          | none ↦ next
          | some caps ↦
              if passes h x method headers route
              then some (record {
                route = route;
                path_params = named_params h x method headers caps (x.capture_names re);
              })
              else next
        ]
      ])
        ≡ some m
      → (next ≡ some m) ⊎ ((m.route ≡ route) × (passes h x method headers m.route ≡ true))
  regex_round path route none next m e = inl e
  regex_round path route (some re) next m e = elim (Option-cases (x.captures re path)) [
    | inl off ↦ inl (rw off at e)
    | inr (caps, on) ↦ elim (Bool-cases (passes h x method headers route)) [
      | inl fits ↦
          let params = named_params h x method headers caps (x.capture_names re) in
          let found : MatchedRoute = record { route = route; path_params = params } in
          let e' : some found ≡ some m = rw (on, fits) at e in
          let same : m.route ≡ route = cc in inr (same, ap (passes h x method headers) same ∙ fits)
      | inr fails ↦ inl (rw (on, fails) at e)
    ]
  ]

  match_regex-Serves :
      (path : Str) (l : List (CompiledRoute x)) (m : MatchedRoute)
      → match_regex h x method headers path l ≡ some m
      → (c : CompiledRoute x) × Memᴰ c l
        × (m.route ≡ c.route)
        × (passes h x method headers m.route ≡ true)
  unfolding match_regex
  match_regex-Serves path [] m e = absurd (cc)
  match_regex-Serves path (r ∷ l) m e =
      elim (regex_round path r.route r.regex (match_regex h x method headers path l) m e) [
        | inl later ↦
            let (c, inside, same, good) = match_regex-Serves path l m later in
            (c, Memᴰ.tail inside, same, good)
        | inr (same, good) ↦ (r, Memᴰ.head refl, same, good)
      ]

  first_match-some :
      (a b c : Option MatchedRoute) (path : Str) (m : MatchedRoute)
      → first_match h x method headers a b c path ≡ ok m
      → (a ≡ some m) ⊎ (b ≡ some m) ⊎ (c ≡ some m)
  unfolding first_match
  first_match-some (some a) b c path m e = inl (cc)
  first_match-some none (some b) c path m e = inr (inl (cc))
  first_match-some none none (some c) path m e = inr (inr (cc))
  first_match-some none none none path m e = absurd (cc)

  match_spec-Serves :
      (routes : List RouteConfig) (path : Str) (m : MatchedRoute)
      → match_spec h x method headers routes path ≡ ok m
      → Serves routes m.route
  unfolding match_spec
  match_spec-Serves routes path m e = elim (first_match-some _ _ _ path m e) [
    | inl e1 ↦
        let (found, good) =
          match_exact-Serves (first (exact_routes routes (path_keys path))) m e1 in
        (
          (Memᴰ-keep (λ r. exact_at (path_keys path) r.match_.path) routes (Memᴰ-first _ found)).0,
          good,
        )
    | inr (inl e2) ↦
        let (inside, good) = match_prefix-Serves _ m e2 in
        (
          Memᴰ-flat (prefix_routes routes) routes (prefixes (path_keys path))
              (λ q k. (Memᴰ-keep (λ r. prefix_at q r.match_.path) routes k).0)
              (Memᴰ-reverse _ inside),
          good,
        )
    | inr (inr e3) ↦
        let (c, inside, same, good) = match_regex-Serves path _ m e3 in
        (List.Memᴰ.cast same (Memᴰ-compiled_routes x routes inside), good)
  ]

-- A table answers a request only with a route of its configuration whose method and header
-- predicates the request satisfies.
pub match_request-Serves :
    (h : HeaderApi) (x : RegexApi) (method : Str) (headers : h.HeaderMap) (cfg : GatewayConfig)
    (r : Router x) (path : Str) (m : MatchedRoute)
    → build x cfg ≡ ok r
    → match_request h x method headers r path ≡ ok m
    → Serves h x method headers cfg.routes m.route
match_request-Serves h x method headers cfg r path m built e =
    match_spec-Serves h x method headers cfg.routes path m
      (sym (match_request-refines x h method headers cfg r path built) ∙ e)
