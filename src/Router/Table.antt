-- ===== src/Router/Table.antt =====
-- crates/gateway-router/src/router.rs, matched.rs and error.rs: the routing table, its build, the
-- matching of a request, and the handle that swaps tables.
-- The source of a regex error is not kept. The atomic swap of `ArcSwap` is the step from one handle
-- state to the next.
pub mod Spec
pub mod Refines
pub mod Sound
pub mod Shadowed
pub mod Reload
pub mod Normal
use stateform.Prelude.{
  ℕ, Bool, true, false, Option, none, some, List, [], ◌∷◌, ◌++◌, reverse, if◌then◌else◌, ◌==◌,
}
use stateform.Prelude.Text.{Str, ascii_lower, trim_start_matches}
use stateform.Config.Schema.{RouteConfig, PathMatch, prefix, exact, regex, GatewayConfig}
use stateform.Http.{HeaderApi, RegexApi}
use stateform.Router.Predicate.{matches_predicates}
use stateform.Router.Trie.{
  TrieNode, new, insert_prefix, collect_prefix_matches, find_exact, fuel_for,
}

pub data RouterError : Type 0 where
  no_match : Str → RouterError
  invalid_regex : Str → RouterError
  config : Str → RouterError

pub data Result {ℓ} (A : Type ℓ) : Type ℓ where
  ok : A → Result A
  err : RouterError → Result A

-- The loop of `normalise_path`; the flag is `last_was_slash`.
unfoldable pub collapse : Bool → Str → Str
collapse last_was_slash [] = []
collapse true (ch ∷ s) = if ch == b'/' then collapse true s else ascii_lower ch ∷ collapse false s
collapse false (ch ∷ s) =
    if ch == b'/' then ch ∷ collapse true s else ascii_lower ch ∷ collapse false s

unfoldable pub normalise_path : Str → Str
unfolding collapse trim_start_matches
normalise_path path = collapse false (trim_start_matches (λ c. c == b'/') path)

module _ (x : RegexApi) where
  pub record CompiledRoute : Type 0 where
    pub route : RouteConfig
    pub regex : Option x.Regex

  pub record Router : Type 0 where
    pub exact_trie : TrieNode
    pub prefix_trie : TrieNode
    pub regex_routes : List CompiledRoute

  abbrev pub empty_router : Router
  empty_router = record { exact_trie = new []; prefix_trie = new []; regex_routes = [] }

  abbrev pub insert_path : Str → RouteConfig → TrieNode → TrieNode
  insert_path value route t =
      insert_prefix (fuel_for (normalise_path value)) (normalise_path value) route t

  -- One round of the loop of `build`, by the kind of the route's path.
  unfoldable pub add_route : PathMatch → RouteConfig → Router → Result Router
  add_route (exact value) route r =
      ok (record r { exact_trie = insert_path value route r.exact_trie })
  add_route (prefix value) route r =
      ok (record r { prefix_trie = insert_path value route r.prefix_trie })
  add_route (regex pattern) route r = elim (x.new pattern) [
    | none ↦ err (invalid_regex pattern)
    | some re ↦ ok (record r {
      regex_routes = r.regex_routes ++ record { route = route; regex = some re } ∷ [];
    })
  ]

  unfoldable pub add_routes : List RouteConfig → Router → Result Router
  add_routes [] r = ok r
  add_routes (route ∷ routes) r = elim (add_route route.match_.path route r) [
    | err e ↦ err e
    | ok r' ↦ add_routes routes r'
  ]

  unfoldable pub build : GatewayConfig → Result Router
  unfolding add_routes add_route normalise_path insert_prefix
  build cfg = add_routes cfg.routes empty_router

pub record MatchedRoute : Type 0 where
  pub route : RouteConfig
  pub path_params : List (Str × Str)

abbrev pub matched : RouteConfig → MatchedRoute
matched route = record { route = route; path_params = [] }

module _ (h : HeaderApi) (x : RegexApi) (method : Str) (headers : h.HeaderMap) where
  abbrev pub passes : RouteConfig → Bool
  passes route = matches_predicates h x route.match_.method route.match_.headers method headers

  -- Stage 2: the first candidate that passes.
  unfoldable pub match_prefix : List RouteConfig → Option MatchedRoute
  match_prefix [] = none
  match_prefix (route ∷ routes) = if passes route then some (matched route) else match_prefix routes

  -- The named groups that took part in the match.
  unfoldable pub named_params : x.Captures → List (Option Str) → List (Str × Str)
  named_params caps [] = []
  named_params caps (none ∷ names) = named_params caps names
  named_params caps (some name ∷ names) =
      let rest = named_params caps names in
      elim (x.name caps name) [ none ↦ rest | some text ↦ (name, text) ∷ rest ]

  -- Stage 3: the first compiled route whose pattern matches the raw path and that passes.
  unfoldable pub match_regex : Str → List (CompiledRoute x) → Option MatchedRoute
  match_regex path [] = none
  match_regex path (compiled ∷ rest) =
      let next = match_regex path rest in
      elim compiled.regex [
        | none ↦ next
        | some re ↦ elim (x.captures re path) [
          | none ↦ next
          | some caps ↦
              if passes compiled.route
              then some (record {
                route = compiled.route;
                path_params = named_params caps (x.capture_names re);
              })
              else next
        ]
      ]

  -- Stage 1: the one candidate of the exact trie.
  unfoldable pub match_exact : Option RouteConfig → Option MatchedRoute
  match_exact none = none
  match_exact (some route) = if passes route then some (matched route) else none

  -- The stages in their order.
  unfoldable pub first_match :
      Option MatchedRoute → Option MatchedRoute → Option MatchedRoute → Str → Result MatchedRoute
  first_match (some m) prefix_ regex_ path = ok m
  first_match none (some m) regex_ path = ok m
  first_match none none (some m) path = ok m
  first_match none none none path = err (no_match path)

  unfoldable pub match_request : Router x → Str → Result MatchedRoute
  unfolding first_match match_exact match_regex match_prefix named_params normalise_path find_exact
      collect_prefix_matches
  match_request r path =
      let normalised = normalise_path path in
      let fuel = fuel_for normalised in
      first_match (match_exact (find_exact fuel normalised r.exact_trie))
        (match_prefix (reverse (collect_prefix_matches fuel normalised r.prefix_trie)))
        (match_regex path r.regex_routes) path

module _ (x : RegexApi) where
  abbrev pub swap_in : Router x → Result (Router x) → Router x × Result (Unit {0})
  swap_in current (err e) = (current, err e)
  swap_in current (ok router) = (router, ok tt)

  -- `RouterHandle::rebuild`: the router that the handle holds afterwards, and the result.
  unfoldable pub rebuild : GatewayConfig → Router x → Router x × Result (Unit {0})
  unfolding build
  rebuild cfg current = swap_in current (build x cfg)
