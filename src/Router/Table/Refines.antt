-- ===== src/Router/Table/Refines.antt =====
-- The table with its tries refines the specification.
use mathlib.Core.List.{append-nil, append_assoc}
use mathlib.Core.Path.{fun_ext, subst}
use stateform.Prelude.{
  ◌≡◌, refl, sym, ap, ◌∙◌, inl, inr, Bool, some, List, [], ◌∷◌, ◌++◌, keep, first, Option-cases,
  arith,
}
use stateform.Prelude.Text.{Str}
use stateform.Config.Schema.{RouteConfig, PathMatch, prefix, exact, regex, GatewayConfig}
use stateform.Http.{HeaderApi, RegexApi}
use stateform.Router.Trie.{TrieNode, new, fuel_for}
use stateform.Router.Trie.Keyed.{child}
use stateform.Router.Trie.Segments.{keys_eq}
use stateform.Router.Trie.Laws.{
  routes_at, SortedAt, IsSorted, routes_at-insert_prefix, SortedAt-insert_prefix, only_if, prefixes,
  flat, collect_prefix_matches-eq, find_exact-eq,
}
use stateform.Router.Table.{
  CompiledRoute, Router, Result, ok, err, normalise_path, add_route, add_routes, build,
  empty_router, insert_path, match_request,
}
use stateform.Router.Table.Spec.{
  path_keys, exact_at, prefix_at, exact_routes, prefix_routes, compiled, compiled_routes,
  match_spec, stages-ap,
}

module _ (x : RegexApi) where
  -- The table `r'` has, beyond those of `r`, exactly the given routes.
  pub record Extends (routes : List RouteConfig) (r r' : Router x) : Type 0 where
    pub exacts :
        (q : List Str)
        → routes_at q r'.exact_trie ≡ routes_at q r.exact_trie ++ exact_routes routes q
    pub prefixed :
        (q : List Str)
        → routes_at q r'.prefix_trie ≡ routes_at q r.prefix_trie ++ prefix_routes routes q
    pub regexes : r'.regex_routes ≡ r.regex_routes ++ compiled_routes x routes
    pub exact_sorted : (q : List Str) → SortedAt q r'.exact_trie
    pub prefix_sorted : (q : List Str) → SortedAt q r'.prefix_trie

  insert_path-routes :
      (value : Str) (route : RouteConfig) (q : List Str) (t : TrieNode)
      → routes_at q (insert_path x value route t)
        ≡ routes_at q t ++ only_if (keys_eq (path_keys value) q) route
  insert_path-routes value route q t =
      routes_at-insert_prefix (fuel_for (normalise_path value)) (normalise_path value) route q t
        (omega arith)

  Extends-nil : (r : Router x) → IsSorted r.exact_trie → IsSorted r.prefix_trie → Extends [] r r
  unfolding compiled_routes
  Extends-nil r e p = record {
    exacts = λ q. sym (append-nil _);
    prefixed = λ q. sym (append-nil _);
    regexes = sym (append-nil _);
    exact_sorted = e;
    prefix_sorted = p;
  }

  add_route-Extends :
      (route : RouteConfig) (p : PathMatch) (r r' : Router x)
      → route.match_.path ≡ p
      → IsSorted r.exact_trie
      → IsSorted r.prefix_trie
      → add_route x p route r ≡ ok r'
      → Extends (route ∷ []) r r'
  unfolding add_route exact_at prefix_at compiled_routes compiled
  add_route-Extends route (exact value) r r' is es ps e =
      let grown : Router x = record r { exact_trie = insert_path x value route r.exact_trie } in
      let same : grown ≡ r' = cc in
      subst (Extends (route ∷ []) r) same (record {
        exacts = λ q.
            insert_path-routes value route q r.exact_trie
            ∙ ap (λ p. routes_at q r.exact_trie ++ only_if (exact_at q p) route) (sym is);
        prefixed = λ q.
            sym (append-nil _)
            ∙ ap (λ p. routes_at q r.prefix_trie ++ only_if (prefix_at q p) route) (sym is);
        regexes =
            sym (append-nil _) ∙ ap (λ p. r.regex_routes ++ (compiled x p route ++ [])) (sym is);
        exact_sorted = λ q. SortedAt-insert_prefix _ _ route r.exact_trie q es;
        prefix_sorted = ps;
      })
  add_route-Extends route (prefix value) r r' is es ps e =
      let grown : Router x = record r { prefix_trie = insert_path x value route r.prefix_trie } in
      let same : grown ≡ r' = cc in
      subst (Extends (route ∷ []) r) same (record {
        exacts = λ q.
            sym (append-nil _)
            ∙ ap (λ p. routes_at q r.exact_trie ++ only_if (exact_at q p) route) (sym is);
        prefixed = λ q.
            insert_path-routes value route q r.prefix_trie
            ∙ ap (λ p. routes_at q r.prefix_trie ++ only_if (prefix_at q p) route) (sym is);
        regexes =
            sym (append-nil _) ∙ ap (λ p. r.regex_routes ++ (compiled x p route ++ [])) (sym is);
        exact_sorted = es;
        prefix_sorted = λ q. SortedAt-insert_prefix _ _ route r.prefix_trie q ps;
      })
  add_route-Extends route (regex pattern) r r' is es ps e = elim (Option-cases (x.new pattern)) [
    | inl invalid ↦ absurd (cc (rw (invalid, add_route) at e))
    | inr (re, valid) ↦
        let added : CompiledRoute x = record { route = route; regex = some re } in
        let grown : Router x = record r { regex_routes = r.regex_routes ++ added ∷ [] } in
        let e' : ok grown ≡ ok r' = rw (valid, add_route) at e in
        let same : grown ≡ r' = cc in
        subst (Extends (route ∷ []) r) same (record {
          exacts = λ q.
              sym (append-nil _)
              ∙ ap (λ p. routes_at q r.exact_trie ++ only_if (exact_at q p) route) (sym is);
          prefixed = λ q.
              sym (append-nil _)
              ∙ ap (λ p. routes_at q r.prefix_trie ++ only_if (prefix_at q p) route) (sym is);
          regexes =
              (rw (valid, compiled) refl)
              ∙ ap (λ p. r.regex_routes ++ (compiled x p route ++ [])) (sym is);
          exact_sorted = es;
          prefix_sorted = ps;
        })
  ]

  keep-cons :
      (p : RouteConfig → Bool) (route : RouteConfig) (routes : List RouteConfig)
      → keep p (route ∷ []) ++ keep p routes ≡ keep p (route ∷ routes)
  keep-cons p route routes = ground arith

  Extends-cons :
      (route : RouteConfig) (routes : List RouteConfig) (a b c : Router x)
      → Extends (route ∷ []) a b
      → Extends routes b c
      → Extends (route ∷ routes) a c
  unfolding compiled_routes
  Extends-cons route routes a b c one rest = record {
    exacts = λ q.
        rest.exacts q
        ∙ ap (λ l. l ++ exact_routes routes q) (one.exacts q)
        ∙ append_assoc (routes_at q a.exact_trie) (exact_routes (route ∷ []) q)
            (exact_routes routes q)
        ∙ ap (λ l. routes_at q a.exact_trie ++ l)
            (keep-cons (λ r. exact_at q r.match_.path) route routes);
    prefixed = λ q.
        rest.prefixed q
        ∙ ap (λ l. l ++ prefix_routes routes q) (one.prefixed q)
        ∙ append_assoc (routes_at q a.prefix_trie) (prefix_routes (route ∷ []) q)
            (prefix_routes routes q)
        ∙ ap (λ l. routes_at q a.prefix_trie ++ l)
            (keep-cons (λ r. prefix_at q r.match_.path) route routes);
    regexes =
        rest.regexes
        ∙ ap (λ l. l ++ compiled_routes x routes) one.regexes
        ∙ append_assoc a.regex_routes (compiled_routes x (route ∷ [])) (compiled_routes x routes)
        ∙ ap (λ l. a.regex_routes ++ (l ++ compiled_routes x routes))
            (append-nil (compiled x route.match_.path route));
    exact_sorted = rest.exact_sorted;
    prefix_sorted = rest.prefix_sorted;
  }

  add_routes-Extends :
      (routes : List RouteConfig) (r r' : Router x)
      → IsSorted r.exact_trie
      → IsSorted r.prefix_trie
      → add_routes x routes r ≡ ok r'
      → Extends routes r r'
  unfolding add_routes
  add_routes-Extends [] r r' es ps e =
      let same : r ≡ r' = cc in subst (Extends [] r) same (Extends-nil r es ps)
  add_routes-Extends (route ∷ routes) r r' es ps e =
      go (add_route x route.match_.path route r) refl e (λ s. add_routes-Extends routes s r')
    where
      go :
          (o : Result (Router x))
          → add_route x route.match_.path route r ≡ o
          → (elim o [ err e ↦ err e | ok s ↦ add_routes x routes s ]) ≡ ok r'
          → ((s : Router x)
              → IsSorted s.exact_trie
              → IsSorted s.prefix_trie
              → add_routes x routes s ≡ ok r'
              → Extends routes s r')
          → Extends (route ∷ routes) r r'
      go (err x) is bad rest = absurd (cc)
      go (ok s) is good rest =
          let one = add_route-Extends route route.match_.path r s refl es ps is in
          Extends-cons route routes r s r' one (rest s one.exact_sorted one.prefix_sorted good)

  empty-sorted : (q : List Str) → SortedAt q (new [])
  unfolding SortedAt child
  empty-sorted [] = tt
  empty-sorted (k ∷ ks) = tt

  empty-routes : (q : List Str) → routes_at q (new []) ≡ []
  unfolding routes_at
  empty-routes [] = refl
  empty-routes (k ∷ ks) = refl

  pub flat-ext :
      (f g : List Str → List RouteConfig) (qs : List (List Str))
      → ((q : List Str) → f q ≡ g q)
      → flat f qs ≡ flat g qs
  flat-ext f g qs h = ap (λ k. flat k qs) (fun_ext h)

  -- A routing table built from a configuration answers every request exactly as the
  -- specification does on the list of routes: the first exact route at the path if it passes,
  -- otherwise the first prefix route that passes, the longest prefix first, otherwise the first
  -- regex route that matches and passes. The tries, their sorted children and the binary
  -- searches leave no trace.
  pub match_request-refines :
      (h : HeaderApi) (method : Str) (headers : h.HeaderMap) (cfg : GatewayConfig) (r : Router x)
      (path : Str)
      → build x cfg ≡ ok r
      → match_request h x method headers r path ≡ match_spec h x method headers cfg.routes path
  unfolding build match_request match_spec
  match_request-refines h method headers cfg r path e =
      let normalised = normalise_path path in
      let all = add_routes-Extends cfg.routes (empty_router x) r empty-sorted empty-sorted e in
      let exact_found =
        find_exact-eq (fuel_for normalised) normalised r.exact_trie (omega arith) all.exact_sorted
        ∙ ap (λ l. first l)
            (all.exacts (path_keys path)
              ∙ ap (λ l. l ++ exact_routes cfg.routes (path_keys path))
                  (empty-routes (path_keys path))) in
      let candidates =
        collect_prefix_matches-eq (fuel_for normalised) normalised r.prefix_trie (omega arith)
          all.prefix_sorted
        ∙ flat-ext _ (prefix_routes cfg.routes) (prefixes (path_keys path))
            (λ q. all.prefixed q ∙ ap (λ l. l ++ prefix_routes cfg.routes q) (empty-routes q)) in
      stages-ap h x method headers path exact_found candidates all.regexes
