-- ===== src/Router/Trie/Laws.antt =====
-- The trie as a function from the segments of a path to the routes that end there: what an
-- insertion adds to it, and which routes the two walks give.
use mathlib.Core.List.{append-nil}
use stateform.Prelude.{
  ℕ, zero, suc, ◌<◌, ◌≡◌, refl, sym, ap, ◌∙◌, inl, inr, Bool, Option, none, some, List, [], ◌∷◌,
  ◌++◌, map, length, first, if◌then◌else◌, Bool-cases, arith,
}
use stateform.Prelude.Text.{Str, str_eq, str_eq_iff}
use stateform.Config.Schema.{RouteConfig}
use stateform.Router.Trie.{
  TrieNode, node, to_list, segment, routes, children, insert_child, insert_prefix,
  collect_prefix_matches, find_exact, split_first_segment,
}
use stateform.Router.Trie.Keyed.{child, Sorted, or_new, child-insert_child, to_list-of_list}
use stateform.Router.Trie.Ordered.{Sorted-insert_child}
use stateform.Router.Trie.Search.{binary_search-child}
use stateform.Router.Trie.Segments.{segments, length-split_first_segment, keys_eq}

unfoldable pub below : (TrieNode → List RouteConfig) → Option TrieNode → List RouteConfig
below f none = []
below f (some c) = f c

-- The routes of the node that the segments lead to.
unfoldable pub routes_at : List Str → TrieNode → List RouteConfig
unfolding below child
routes_at [] t = routes t
routes_at (k ∷ ks) t = below (routes_at ks) (child k (children t))

abbrev pub Deep : (TrieNode → Type 0) → Option TrieNode → Type 0
Deep P none = Unit {0}
Deep P (some c) = P c

-- The children of the node that the segments lead to are sorted.
unfoldable pub SortedAt : List Str → TrieNode → Type 0
SortedAt [] t = Sorted (children t)
SortedAt (k ∷ ks) t = Deep (SortedAt ks) (child k (children t))

abbrev pub IsSorted : TrieNode → Type 0
IsSorted t = (ks : List Str) → SortedAt ks t

pub segment-insert_prefix :
    (f : ℕ) (path : Str) (r : RouteConfig) (t : TrieNode)
    → segment (insert_prefix f path r t) ≡ segment t
unfolding insert_prefix
segment-insert_prefix zero path r t = refl
segment-insert_prefix (suc f) [] r (node s rs cs) = refl
segment-insert_prefix (suc f) (c ∷ p) r (node s rs cs) = refl

routes_at-or_new :
    (q : List Str) (k : Str) (o : Option TrieNode)
    → routes_at q (or_new k o) ≡ below (routes_at q) o
unfolding routes_at or_new
routes_at-or_new q k (some c) = refl
routes_at-or_new [] k none = refl
routes_at-or_new (j ∷ js) k none = refl

abbrev pub only_if : Bool → RouteConfig → List RouteConfig
only_if b r = if b then r ∷ [] else []

-- An insertion adds the route at the end of the node that its path leads to, and nothing elsewhere.
pub routes_at-insert_prefix :
    (f : ℕ) (path : Str) (r : RouteConfig) (q : List Str) (t : TrieNode)
    → length path < f
    → routes_at q (insert_prefix f path r t)
      ≡ routes_at q t ++ only_if (keys_eq (segments f path) q) r
unfolding routes_at insert_prefix segments keys_eq
routes_at-insert_prefix zero path r q t h = absurd (omega arith)
routes_at-insert_prefix (suc f) [] r [] (node s rs cs) h = refl
routes_at-insert_prefix (suc f) [] r (k ∷ ks) (node s rs cs) h = sym (append-nil _)
routes_at-insert_prefix (suc f) (c ∷ p) r [] (node s rs cs) h = sym (append-nil _)
routes_at-insert_prefix (suc f) (c ∷ p) r (k ∷ ks) (node s rs cs) h =
    let head = (split_first_segment (c ∷ p)).0 in
    let tail = (split_first_segment (c ∷ p)).1 in
    let shorter = length-split_first_segment c p in
    let found =
      child-insert_child head k (insert_prefix f tail r) (to_list cs)
        (λ d. segment-insert_prefix f tail r d) in
    rw (to_list-of_list (insert_child head (insert_prefix f tail r) (to_list cs))) (
      rw found (elim (Bool-cases (str_eq head k)) [
        | inl same ↦
            let there = child head (to_list cs) in
            let added = only_if (keys_eq (segments f tail) ks) r in
            rw same (
              routes_at-insert_prefix f tail r ks (or_new head there) (omega arith)
              ∙ ap (λ rest. rest ++ added) (routes_at-or_new ks head there)
              ∙ ap (λ j. below (routes_at ks) (child j (to_list cs)) ++ added)
                  ((str_eq_iff head k).0 same))
        | inr other ↦ rw other (sym (append-nil _))
      ]))

SortedAt-or_new :
    (q : List Str) (k : Str) (o : Option TrieNode) → Deep (SortedAt q) o → SortedAt q (or_new k o)
unfolding SortedAt or_new child
SortedAt-or_new q k (some c) h = h
SortedAt-or_new [] k none h = tt
SortedAt-or_new (j ∷ js) k none h = tt

-- An insertion keeps the children of every node sorted.
pub SortedAt-insert_prefix :
    (f : ℕ) (path : Str) (r : RouteConfig) (t : TrieNode) (q : List Str)
    → IsSorted t
    → SortedAt q (insert_prefix f path r t)
unfolding SortedAt insert_prefix
SortedAt-insert_prefix zero path r t q sorted = sorted q
SortedAt-insert_prefix (suc f) [] r (node s rs cs) [] sorted = sorted []
SortedAt-insert_prefix (suc f) [] r (node s rs cs) (k ∷ ks) sorted = sorted (k ∷ ks)
SortedAt-insert_prefix (suc f) (c ∷ p) r (node s rs cs) [] sorted =
    let head = (split_first_segment (c ∷ p)).0 in
    let tail = (split_first_segment (c ∷ p)).1 in
    rw (to_list-of_list (insert_child head (insert_prefix f tail r) (to_list cs))) (
      Sorted-insert_child head (insert_prefix f tail r) (to_list cs)
        (λ d. segment-insert_prefix f tail r d) (sorted []))
SortedAt-insert_prefix (suc f) (c ∷ p) r (node s rs cs) (k ∷ ks) sorted =
    let head = (split_first_segment (c ∷ p)).0 in
    let tail = (split_first_segment (c ∷ p)).1 in
    let found =
      child-insert_child head k (insert_prefix f tail r) (to_list cs)
        (λ d. segment-insert_prefix f tail r d) in
    rw (to_list-of_list (insert_child head (insert_prefix f tail r) (to_list cs))) (
      rw found (elim (Bool-cases (str_eq head k)) [
        | inl same ↦ rw same (
            SortedAt-insert_prefix f tail r (or_new head (child head (to_list cs))) ks
              (λ q. SortedAt-or_new q head (child head (to_list cs)) (sorted (head ∷ q))))
        | inr other ↦ rw other (sorted (k ∷ ks))
      ]))

-- The prefixes of a list, from the empty one on.
unfoldable pub prefixes : List Str → List (List Str)
prefixes [] = [] ∷ []
prefixes (k ∷ ks) = [] ∷ map (λ q. k ∷ q) (prefixes ks)

unfoldable pub flat : (List Str → List RouteConfig) → List (List Str) → List RouteConfig
flat f [] = []
flat f (q ∷ qs) = f q ++ flat f qs

flat-map :
    (f : List Str → List RouteConfig) (k : Str) (qs : List (List Str))
    → flat f (map (λ q. k ∷ q) qs) ≡ flat (λ q. f (k ∷ q)) qs
unfolding flat
flat-map f k [] = refl
flat-map f k (q ∷ qs) = ap (λ rest. f (k ∷ q) ++ rest) (flat-map f k qs)

flat-nothing : (qs : List (List Str)) → flat (λ q. []) qs ≡ []
unfolding flat
flat-nothing [] = refl
flat-nothing (q ∷ qs) = flat-nothing qs

collect_below :
    (f : ℕ) (tail : Str) (ps : List (List Str)) (o : Option TrieNode)
    → ((c : TrieNode) → IsSorted c → collect_prefix_matches f tail c ≡ flat (λ q. routes_at q c) ps)
    → ((q : List Str) → Deep (SortedAt q) o)
    → (elim o [ none ↦ [] | some c ↦ collect_prefix_matches f tail c ])
      ≡ flat (λ q. below (routes_at q) o) ps
unfolding below
collect_below f tail ps none walk sorted = sym (flat-nothing ps)
collect_below f tail ps (some c) walk sorted = walk c sorted

-- The walk for the prefixes gives the routes of every node on the path, from the root down.
pub collect_prefix_matches-eq :
    (f : ℕ) (path : Str) (t : TrieNode)
    → length path < f
    → IsSorted t
    → collect_prefix_matches f path t ≡ flat (λ q. routes_at q t) (prefixes (segments f path))
unfolding collect_prefix_matches segments prefixes flat routes_at SortedAt
collect_prefix_matches-eq zero path t h sorted = absurd (omega arith)
collect_prefix_matches-eq (suc f) [] t h sorted = refl
collect_prefix_matches-eq (suc f) (c ∷ p) t h sorted =
    let head = (split_first_segment (c ∷ p)).0 in
    let tail = (split_first_segment (c ∷ p)).1 in
    let shorter = length-split_first_segment c p in
    let there = child head (children t) in
    let ps = prefixes (segments f tail) in
    let searched = binary_search-child head (children t) (sorted []) in
    let walked =
      collect_below f tail ps there
        (λ d s. collect_prefix_matches-eq f tail d (omega (arith, shorter)) s)
        (λ q. sorted (head ∷ q)) in
    rw (searched, collect_prefix_matches)
      (ap (λ rest. routes t ++ rest) (walked ∙ sym (flat-map (λ q. routes_at q t) head ps)))

exact_below :
    (f : ℕ) (tail : Str) (q : List Str) (o : Option TrieNode)
    → ((c : TrieNode) → IsSorted c → find_exact f tail c ≡ first (routes_at q c))
    → ((q : List Str) → Deep (SortedAt q) o)
    → (elim o [ none ↦ none | some c ↦ find_exact f tail c ]) ≡ first (below (routes_at q) o)
unfolding below
exact_below f tail q none walk sorted = refl
exact_below f tail q (some c) walk sorted = walk c sorted

-- The exact walk gives the first route of the node that the path leads to.
pub find_exact-eq :
    (f : ℕ) (path : Str) (t : TrieNode)
    → length path < f
    → IsSorted t
    → find_exact f path t ≡ first (routes_at (segments f path) t)
unfolding find_exact segments routes_at SortedAt
find_exact-eq zero path t h sorted = absurd (omega arith)
find_exact-eq (suc f) [] t h sorted = refl
find_exact-eq (suc f) (c ∷ p) t h sorted =
    let head = (split_first_segment (c ∷ p)).0 in
    let tail = (split_first_segment (c ∷ p)).1 in
    let shorter = length-split_first_segment c p in
    let searched = binary_search-child head (children t) (sorted []) in
    rw (searched, find_exact)
      (exact_below f tail (segments f tail) (child head (children t))
        (λ d s. find_exact-eq f tail d (omega (arith, shorter)) s) (λ q. sorted (head ∷ q)))
