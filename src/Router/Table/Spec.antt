-- ===== src/Router/Table/Spec.antt =====
-- What a routing table promises, said of the list of configured routes alone: which routes stand at
-- a path, and the order in which the candidates of a request are tried.
use stateform.Prelude.{
  ◌≡◌, ap, ◌∙◌, Bool, false, Option, none, some, List, [], ◌∷◌, ◌++◌, reverse, keep, first,
}
use stateform.Prelude.Text.{Str}
use stateform.Config.Schema.{RouteConfig, PathMatch, prefix, exact, regex}
use stateform.Http.{HeaderApi, RegexApi}
use stateform.Router.Trie.Segments.{segments_of, keys_eq}
use stateform.Router.Trie.Laws.{prefixes, flat}
use stateform.Router.Table.{
  CompiledRoute, MatchedRoute, Result, normalise_path, match_exact, match_prefix, match_regex,
  first_match,
}

-- The segments of a path as the router normalises it.
abbrev pub path_keys : Str → List Str
path_keys path = segments_of (normalise_path path)

-- Is it an exact path, or a prefix path, with these segments?
unfoldable pub exact_at : List Str → PathMatch → Bool
exact_at q (exact value) = keys_eq (path_keys value) q
exact_at q _ = false

unfoldable pub prefix_at : List Str → PathMatch → Bool
prefix_at q (prefix value) = keys_eq (path_keys value) q
prefix_at q _ = false

abbrev pub exact_routes : List RouteConfig → List Str → List RouteConfig
exact_routes routes q = keep (λ r. exact_at q r.match_.path) routes

abbrev pub prefix_routes : List RouteConfig → List Str → List RouteConfig
prefix_routes routes q = keep (λ r. prefix_at q r.match_.path) routes

-- The prefix routes of every prefix of the path, the shortest prefix first and, at one prefix, in
-- the order of declaration.
abbrev pub prefix_candidates : List RouteConfig → List Str → List RouteConfig
prefix_candidates routes keys = flat (prefix_routes routes) (prefixes keys)

module _ (x : RegexApi) where
  -- The regex routes with their compiled patterns, in the order of declaration.
  unfoldable pub compiled : PathMatch → RouteConfig → List (CompiledRoute x)
  compiled (regex pattern) route = elim (x.new pattern) [
    | none ↦ []
    | some re ↦ record { route = route; regex = some re } ∷ []
  ]
  compiled _ route = []

  unfoldable pub compiled_routes : List RouteConfig → List (CompiledRoute x)
  unfolding compiled
  compiled_routes [] = []
  compiled_routes (route ∷ routes) = compiled route.match_.path route ++ compiled_routes routes

-- The result of a request: the first exact route at its path, if it passes; otherwise the first
-- prefix candidate that passes, the longest prefix first and the latest declared first; otherwise
-- the first regex route that matches and passes.
unfoldable pub match_spec :
    (h : HeaderApi) (x : RegexApi)
    → Str
    → h.HeaderMap
    → List RouteConfig
    → Str
    → Result MatchedRoute
match_spec h x method headers routes path =
    first_match h x method headers
      (match_exact h x method headers (first (exact_routes routes (path_keys path))))
      (match_prefix h x method headers (reverse (prefix_candidates routes (path_keys path))))
      (match_regex h x method headers path (compiled_routes x routes)) path

-- The three stages, with what each of them tries.
abbrev pub stages :
    (h : HeaderApi) (x : RegexApi)
    → Str
    → h.HeaderMap
    → Str
    → Option RouteConfig
    → List RouteConfig
    → List (CompiledRoute x)
    → Result MatchedRoute
stages h x method headers path found candidates regexes =
    first_match h x method headers (match_exact h x method headers found)
      (match_prefix h x method headers (reverse candidates))
      (match_regex h x method headers path regexes) path

pub stages-ap :
    (h : HeaderApi) (x : RegexApi) (method : Str) (headers : h.HeaderMap) (path : Str)
    {o o' : Option RouteConfig} {l l' : List RouteConfig} {c c' : List (CompiledRoute x)}
    → o ≡ o'
    → l ≡ l'
    → c ≡ c'
    → stages h x method headers path o l c ≡ stages h x method headers path o' l' c'
stages-ap h x method headers path {o} {o'} {l} {l'} {c} {c'} p q r =
    ap (λ k. stages h x method headers path k l c) p
    ∙ ap (λ k. stages h x method headers path o' k c) q
    ∙ ap (λ k. stages h x method headers path o' l' k) r
