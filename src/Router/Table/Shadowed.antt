-- ===== src/Router/Table/Shadowed.antt =====
-- The exact stage of crates/gateway-router/src/router.rs asks the trie for one candidate.
use stateform.Prelude.{◌≡◌, sym, ap, ◌∙◌, Bool, false, List, [], ◌∷◌, ◌++◌, keep, first, arith}
use stateform.Prelude.Text.{Str}
use stateform.Config.Schema.{RouteConfig, exact, GatewayConfig}
use stateform.Http.{HeaderApi, RegexApi}
use stateform.Router.Trie.Segments.{keys_eq}
use stateform.Router.Trie.Laws.{prefixes}
use stateform.Router.Table.{Router, ok, build, match_request}
use stateform.Router.Table.Spec.{
  path_keys, exact_at, prefix_at, compiled, compiled_routes, match_spec, stages-ap,
}
use stateform.Router.Table.Refines.{match_request-refines, flat-ext}

module _ (p : RouteConfig → Bool) where
  keep-without :
      (b : RouteConfig) (routes after : List RouteConfig)
      → p b ≡ false
      → keep p (routes ++ b ∷ after) ≡ keep p (routes ++ after)
  keep-without b [] after h = ground arith
  keep-without b (r ∷ routes) after h = ground (arith, keep-without b routes after h)

  first-without :
      (a b : RouteConfig) (before between after : List RouteConfig)
      → p a ≡ p b
      → first (keep p (before ++ a ∷ between ++ b ∷ after))
        ≡ first (keep p (before ++ a ∷ between ++ after))
  first-without a b [] between after h = ground (arith, keep-without b between after)
  first-without a b (r ∷ before) between after h =
      ground (arith, first-without a b before between after h)

module _ (x : RegexApi) where
  compiled-without :
      (b : RouteConfig) (routes after : List RouteConfig)
      → compiled x b.match_.path b ≡ []
      → compiled_routes x (routes ++ b ∷ after) ≡ compiled_routes x (routes ++ after)
  unfolding compiled_routes
  compiled-without b [] after h = ap (λ l. l ++ compiled_routes x after) h
  compiled-without b (r ∷ routes) after h =
      ap (λ l. compiled x r.match_.path r ++ l) (compiled-without b routes after h)

  compiled-deep :
      (a b : RouteConfig) (before between after : List RouteConfig)
      → compiled x b.match_.path b ≡ []
      → compiled_routes x (before ++ a ∷ between ++ b ∷ after)
        ≡ compiled_routes x (before ++ a ∷ between ++ after)
  unfolding compiled_routes
  compiled-deep a b [] between after h = compiled-without b (a ∷ between) after h
  compiled-deep a b (r ∷ before) between after h =
      ap (λ l. compiled x r.match_.path r ++ l) (compiled-deep a b before between after h)

keep-deep :
    (p : RouteConfig → Bool) (a b : RouteConfig) (before between after : List RouteConfig)
    → p b ≡ false
    → keep p (before ++ a ∷ between ++ b ∷ after) ≡ keep p (before ++ a ∷ between ++ after)
keep-deep p a b [] between after h = keep-without p b (a ∷ between) after h
keep-deep p a b (r ∷ before) between after h =
    ground (arith, keep-deep p a b before between after h)

-- The specification gives the same answers when the second of two exact routes at a path is left
-- out of the list.
match_spec-shadowed :
    (h : HeaderApi) (x : RegexApi) (method : Str) (headers : h.HeaderMap) (path v w : Str)
    (a b : RouteConfig) (before between after : List RouteConfig)
    → a.match_.path ≡ exact v
    → b.match_.path ≡ exact w
    → path_keys v ≡ path_keys w
    → match_spec h x method headers (before ++ a ∷ between ++ b ∷ after) path
      ≡ match_spec h x method headers (before ++ a ∷ between ++ after) path
unfolding match_spec exact_at prefix_at compiled
match_spec-shadowed h x method headers path v w a b before between after ea eb same =
    let keys = path_keys path in
    let alike : exact_at keys a.match_.path ≡ exact_at keys b.match_.path =
      ap (exact_at keys) ea ∙ ap (λ k. keys_eq k keys) same ∙ ap (exact_at keys) (sym eb) in
    let found = first-without (λ r. exact_at keys r.match_.path) a b before between after alike in
    let candidates = flat-ext x _ _ (prefixes keys) (λ q.
      keep-deep (λ r. prefix_at q r.match_.path) a b before between after (ap (prefix_at q) eb)) in
    let regexes = compiled-deep x a b before between after (ap (λ p. compiled x p b) eb) in
    stages-ap h x method headers path found candidates regexes

-- Of two exact routes whose paths normalise to the same segments the later one is dead: a table
-- answers every request, of whatever method and headers, as the table built without it.
pub match_request-shadowed :
    (h : HeaderApi) (x : RegexApi) (method : Str) (headers : h.HeaderMap) (path v w : Str)
    (a b : RouteConfig) (before between after : List RouteConfig) (cfg : GatewayConfig)
    (r r' : Router x)
    → a.match_.path ≡ exact v
    → b.match_.path ≡ exact w
    → path_keys v ≡ path_keys w
    → build x (record cfg { routes = before ++ a ∷ between ++ b ∷ after }) ≡ ok r
    → build x (record cfg { routes = before ++ a ∷ between ++ after }) ≡ ok r'
    → match_request h x method headers r path ≡ match_request h x method headers r' path
match_request-shadowed h x method headers path v w a b before between after cfg r r' ea eb same e
      e' =
    match_request-refines x h method headers _ r path e
    ∙ match_spec-shadowed h x method headers path v w a b before between after ea eb same
    ∙ sym (match_request-refines x h method headers _ r' path e')
