-- ===== src/Router/Trie.antt =====
-- crates/gateway-router/src/trie.rs: the trie of path segments.
-- `insert_prefix` and the two walks recur on a path that gets shorter, so they take fuel; a fuel
-- above the path's length is enough. The children are a `Vec`; `binary_search_by` and the stable
-- `sort_by` are the standard library's.
pub mod Search
pub mod Keyed
pub mod Ordered
pub mod Segments
pub mod Laws
use stateform.Prelude.{
  ℕ, zero, suc, ◌+◌, ◌-◌, ◌/◌, Bool, true, false, Option, none, some, List, [], ◌∷◌, ◌++◌, map,
  length, first, get_elem?, ◌==◌, leb, if◌then◌else◌,
}
use stateform.Prelude.Text.{Str, str_eq, str_ltb, trim_start_matches, is_empty}
use stateform.Config.Schema.{RouteConfig}

mutual
  pub data TrieNode : Type 0 where
    -- `segment`, `routes`, `children`
    node : Str → List RouteConfig → Children → TrieNode

  pub data Children : Type 0 where
    nil : Children
    cons : TrieNode → Children → Children

-- The slice of the children.
abbrev pub to_list : Children → List TrieNode
to_list nil = []
to_list (cons c cs) = c ∷ to_list cs

abbrev pub of_list : List TrieNode → Children
of_list [] = nil
of_list (c ∷ cs) = cons c (of_list cs)

abbrev pub segment : TrieNode → Str
segment (node s rs cs) = s

abbrev pub routes : TrieNode → List RouteConfig
routes (node s rs cs) = rs

abbrev pub children : TrieNode → List TrieNode
children (node s rs cs) = to_list cs

-- `TrieNode::new`; `TrieNode::default` has the empty segment.
abbrev pub new : Str → TrieNode
new s = node s [] nil

-- `find('/')` and the two slices around it.
unfoldable pub cut : Str → Str × Str
cut [] = ([], [])
cut (c ∷ s) = if c == b'/' then ([], s) else (c ∷ (cut s).0, (cut s).1)

unfoldable pub split_first_segment : Str → Str × Str
unfolding cut trim_start_matches
split_first_segment path = cut (trim_start_matches (λ c. c == b'/') path)

-- `iter().position(|c| c.segment == head)`
unfoldable pub position : Str → List TrieNode → Option ℕ
position head [] = none
position head (c ∷ cs) =
    let rest : Option ℕ = elim (position head cs) [ none ↦ none | some i ↦ some (suc i) ] in
    if str_eq (segment c) head then some 0 else rest

-- `children[i]` replaced.
unfoldable pub modify : ℕ → (TrieNode → TrieNode) → List TrieNode → List TrieNode
modify i f [] = []
modify zero f (c ∷ cs) = f c ∷ cs
modify (suc i) f (c ∷ cs) = c ∷ modify i f cs

-- `sort_by(|a, b| a.segment.cmp(&b.segment))`, a stable sort.
unfoldable pub insert_sorted : TrieNode → List TrieNode → List TrieNode
insert_sorted n [] = n ∷ []
insert_sorted n (c ∷ cs) =
    if str_ltb (segment c) (segment n) then c ∷ insert_sorted n cs else n ∷ c ∷ cs

unfoldable pub sort : List TrieNode → List TrieNode
unfolding insert_sorted
sort [] = []
sort (c ∷ cs) = insert_sorted c (sort cs)

-- The loop of `binary_search_by`: the last base for `size` children from `base` on. The fuel is the
-- size, which falls with every round.
unfoldable pub search_from : ℕ → Str → List TrieNode → ℕ → ℕ → ℕ
search_from zero head cs base size = base
search_from (suc f) head cs base size =
    let half = size / 2 in
    let mid = base + half in
    let up : Bool = elim (get_elem? cs mid) [
      | none ↦ false
      | some c ↦ if str_ltb head (segment c) then false else true
    ] in
    let rest = search_from f head cs (if up then mid else base) (size - half) in
    if leb size 1 then base else rest

-- The child that `binary_search_by` finds.
unfoldable pub binary_search : Str → List TrieNode → Option TrieNode
unfolding search_from
binary_search head cs = elim (get_elem? cs (search_from (length cs) head cs 0 (length cs))) [
  | none ↦ none
  | some c ↦ if str_eq (segment c) head then some c else none
]

-- One level of `insert_prefix`, with the insertion into a child as a function.
unfoldable pub insert_child : Str → (TrieNode → TrieNode) → List TrieNode → List TrieNode
unfolding position modify sort
insert_child head insert cs = elim (position head cs) [
  | some idx ↦ modify idx insert cs
  | none ↦ sort (cs ++ insert (new head) ∷ [])
]

unfoldable pub insert_prefix : ℕ → Str → RouteConfig → TrieNode → TrieNode
unfolding insert_child split_first_segment
insert_prefix zero path route t = t
insert_prefix (suc f) path route (node s rs cs) =
    if is_empty path
    then node s (rs ++ route ∷ []) cs
    else (let (head, tail) = split_first_segment path in
        node s rs (of_list (insert_child head (insert_prefix f tail route) (to_list cs))))

-- The candidates of the node and then those of the child that the path goes on in.
unfoldable pub collect_prefix_matches : ℕ → Str → TrieNode → List RouteConfig
unfolding binary_search split_first_segment
collect_prefix_matches zero path t = []
collect_prefix_matches (suc f) path t =
    let (head, tail) = split_first_segment path in
    let below : List RouteConfig = elim (binary_search head (children t)) [
      | none ↦ []
      | some c ↦ collect_prefix_matches f tail c
    ] in
    routes t ++ (if is_empty path then [] else below)

unfoldable pub find_exact : ℕ → Str → TrieNode → Option RouteConfig
unfolding binary_search split_first_segment
find_exact zero path t = none
find_exact (suc f) path t =
    let (head, tail) = split_first_segment path in
    let below : Option RouteConfig = elim (binary_search head (children t)) [
      | none ↦ none
      | some c ↦ find_exact f tail c
    ] in
    if is_empty path then first (routes t) else below

-- A fuel that is enough for the path.
abbrev pub fuel_for : Str → ℕ
fuel_for path = suc (length path)
