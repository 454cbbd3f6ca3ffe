-- ===== src/Tests/Router.antt =====
-- The theorems on crates/gateway-router at concrete inputs.
use stateform.Prelude.{◌≡◌, refl, none, some, List, [], ◌∷◌, ◌++◌}
use stateform.Prelude.Text.{codes}
use stateform.Config.Schema.{RouteConfig, exact, prefix, regex}
use stateform.Router.Table.{
  Router, ok, err, build, add_routes, add_route, empty_router, match_request, normalise_path,
  collapse, matched,
}
use stateform.Router.Table.Spec.{match_spec, path_keys}
use stateform.Router.Table.Refines.{match_request-refines}
use stateform.Router.Table.Sound.{Serves, match_request-Serves}
use stateform.Router.Table.Shadowed.{match_request-shadowed}
use stateform.Router.Table.Reload.{reloads, accepted, reloads-answers}
use stateform.Router.Table.{first_match, match_exact, match_prefix, match_regex, named_params}
use stateform.Router.Predicate.{matches_predicates, method_matches, headers_match}
use stateform.Prelude.Text.{trim_start_matches, str_eq, str_ltb}
use stateform.Router.Trie.Segments.{segments}
use stateform.Router.Trie.{
  insert_prefix, insert_child, position, modify, sort, insert_sorted, binary_search, search_from,
  split_first_segment, cut, find_exact, collect_prefix_matches,
}
use stateform.Tests.Fixtures.{test_headers, test_regex, route, gateway}

abbrev get_users : RouteConfig
get_users = route (codes "get-users") (exact (codes "/Users")) (some (codes "GET"))

abbrev post_users : RouteConfig
post_users = route (codes "post-users") (exact (codes "//users")) (some (codes "POST"))

abbrev v1 : RouteConfig
v1 = route (codes "v1") (prefix (codes "/api/v1")) none

abbrev health : RouteConfig
health = route (codes "health") (regex (codes "/health")) none

abbrev invalid : RouteConfig
invalid = route (codes "invalid") (regex []) none

abbrev routes : List RouteConfig
routes = get_users ∷ v1 ∷ health ∷ []

-- The table of a configuration that builds.
unfoldable table : List RouteConfig → Router test_regex
table routes = elim (build test_regex (gateway routes)) [
  | ok r ↦ r
  | err e ↦ empty_router test_regex
]

built : build test_regex (gateway routes) ≡ ok (table routes)
unfolding build add_routes add_route table
built = refl

longest :
    match_request test_headers test_regex (codes "GET") [] (table routes) (codes "/api//V1/x")
    ≡ ok (matched v1)
unfolding build add_routes add_route table match_request first_match match_exact match_prefix
    match_regex named_params matches_predicates method_matches headers_match normalise_path collapse
    trim_start_matches insert_prefix insert_child position modify sort insert_sorted binary_search
    search_from split_first_segment cut find_exact collect_prefix_matches str_eq str_ltb
longest = refl

same_keys : path_keys (codes "/Users") ≡ path_keys (codes "//users")
unfolding normalise_path collapse trim_start_matches segments split_first_segment cut
same_keys = refl

built_twice :
    build test_regex (gateway ([] ++ get_users ∷ [] ++ post_users ∷ v1 ∷ []))
    ≡ ok (table ([] ++ get_users ∷ [] ++ post_users ∷ v1 ∷ []))
unfolding build add_routes add_route table
built_twice = refl

built_once :
    build test_regex (gateway ([] ++ get_users ∷ [] ++ v1 ∷ []))
    ≡ ok (table ([] ++ get_users ∷ [] ++ v1 ∷ []))
unfolding build add_routes add_route table
built_once = refl

match_request-refines_example :
    match_request test_headers test_regex (codes "GET") [] (table routes) (codes "/api//V1/x")
    ≡ match_spec test_headers test_regex (codes "GET") [] routes (codes "/api//V1/x")
match_request-refines_example =
    match_request-refines test_regex test_headers (codes "GET") [] (gateway routes) (table routes)
      (codes "/api//V1/x") built

match_request-Serves_example : Serves test_headers test_regex (codes "GET") [] routes v1
match_request-Serves_example =
    match_request-Serves test_headers test_regex (codes "GET") [] (gateway routes) (table routes)
      (codes "/api//V1/x") (matched v1) built longest

-- A POST to the path of the two exact routes.
match_request-shadowed_example :
    match_request test_headers test_regex
      (codes "POST")
      []
      (table ([] ++ get_users ∷ [] ++ post_users ∷ v1 ∷ []))
      (codes "/users")
    ≡ match_request test_headers test_regex
        (codes "POST")
        []
        (table ([] ++ get_users ∷ [] ++ v1 ∷ []))
        (codes "/users")
match_request-shadowed_example =
    match_request-shadowed test_headers test_regex (codes "POST") [] (codes "/users")
      (codes "/Users") (codes "//users") get_users post_users [] [] (v1 ∷ []) (gateway [])
      (table ([] ++ get_users ∷ [] ++ post_users ∷ v1 ∷ []))
      (table ([] ++ get_users ∷ [] ++ v1 ∷ [])) refl refl same_keys built_twice built_once

reloads-answers_example :
    match_request test_headers test_regex
      (codes "POST")
      []
      (reloads test_regex (gateway (invalid ∷ []) ∷ gateway (v1 ∷ []) ∷ []) (table routes))
      (codes "/api/v1")
    ≡ match_spec test_headers test_regex
        (codes "POST")
        []
        (accepted test_regex (gateway (invalid ∷ []) ∷ gateway (v1 ∷ []) ∷ []) routes)
        (codes "/api/v1")
reloads-answers_example =
    reloads-answers test_regex test_headers (gateway routes)
      (gateway (invalid ∷ []) ∷ gateway (v1 ∷ []) ∷ []) (table routes) (codes "POST") []
      (codes "/api/v1") built
