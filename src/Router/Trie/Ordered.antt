-- ===== src/Router/Trie/Ordered.antt =====
-- The children of a node stay in strictly increasing order of their segments.
use stateform.Prelude.{
  ℕ, zero, suc, ◌≡◌, refl, ◌∙◌, inl, inr, true, none, List, [], ◌∷◌, ◌++◌, Bool-cases, Option-cases,
  arith,
}
use stateform.Prelude.Text.{Str, str_eq_iff, str_ltb}
use stateform.Prelude.Order.{str_ltb_irrefl, str_ltb_trans, str_ltb_total}
use stateform.Router.Trie.{
  TrieNode, segment, new, position, modify, insert_sorted, sort, insert_child,
}
use stateform.Router.Trie.Keyed.{child, Above, Sorted, child-sort, child-append, position-none}

abbrev Distinct : List TrieNode → Type 0
Distinct [] = Unit {0}
Distinct (c ∷ cs) = (child (segment c) cs ≡ none) × Distinct cs

Above-child : (s : Str) (cs : List TrieNode) → Above s cs → child s cs ≡ none
unfolding child
Above-child s [] a = refl
Above-child s (c ∷ cs) a =
    ground (arith, Above-child s cs, str_eq_iff (segment c) s, str_ltb_irrefl s)

Sorted-Distinct : (cs : List TrieNode) → Sorted cs → Distinct cs
Sorted-Distinct [] s = tt
Sorted-Distinct (c ∷ cs) s = (Above-child (segment c) cs s.0, Sorted-Distinct cs s.1)

Distinct-append :
    (cs : List TrieNode) (n : TrieNode)
    → Distinct cs
    → child (segment n) cs ≡ none
    → Distinct (cs ++ n ∷ [])
unfolding child
Distinct-append [] n d h = (refl, tt)
Distinct-append (c ∷ cs) n d h =
    let rest : child (segment n) cs ≡ none = ground arith in
    let other = child-append (segment c) cs n rest in
    (
      other
          ∙ ground (arith, str_eq_iff (segment n) (segment c), str_eq_iff (segment c) (segment n)),
      Distinct-append cs n d.1 rest,
    )

Above-trans : (s t : Str) (cs : List TrieNode) → str_ltb s t ≡ true → Above t cs → Above s cs
Above-trans s t [] h a = tt
Above-trans s t (c ∷ cs) h a = (str_ltb_trans s t (segment c) h a.0, Above-trans s t cs h a.1)

Above-insert_sorted :
    (s : Str) (n : TrieNode) (cs : List TrieNode)
    → str_ltb s (segment n) ≡ true
    → Above s cs
    → Above s (insert_sorted n cs)
unfolding insert_sorted
Above-insert_sorted s n [] h a = (h, tt)
Above-insert_sorted s n (c ∷ cs) h a = elim (Bool-cases (str_ltb (segment c) (segment n))) [
  | inl before ↦ rw before (a.0, Above-insert_sorted s n cs h a.1)
  | inr here ↦ rw here (h, a)
]

Sorted-insert_sorted :
    (n : TrieNode) (cs : List TrieNode)
    → Sorted cs
    → child (segment n) cs ≡ none
    → Sorted (insert_sorted n cs)
unfolding insert_sorted child
Sorted-insert_sorted n [] s h = (tt, tt)
Sorted-insert_sorted n (c ∷ cs) s h = elim (Bool-cases (str_ltb (segment c) (segment n))) [
  | inl before ↦ rw before (
    Above-insert_sorted (segment c) n cs before s.0,
    Sorted-insert_sorted n cs s.1 (ground arith),
  )
  | inr here ↦
      let above : str_ltb (segment n) (segment c) ≡ true =
        ground (arith, str_ltb_total (segment c) (segment n), str_eq_iff (segment c) (segment n)) in
      rw here ((above, Above-trans (segment n) (segment c) cs above s.0), s)
]

Sorted-sort : (cs : List TrieNode) → Distinct cs → Sorted (sort cs)
unfolding sort
Sorted-sort [] d = tt
Sorted-sort (c ∷ cs) d =
    Sorted-insert_sorted c (sort cs) (Sorted-sort cs d.1) (child-sort (segment c) cs ∙ d.0)

Above-modify :
    (s : Str) (f : TrieNode → TrieNode) (i : ℕ) (cs : List TrieNode)
    → ((c : TrieNode) → segment (f c) ≡ segment c)
    → Above s cs
    → Above s (modify i f cs)
unfolding modify
Above-modify s f i [] keeps a = tt
Above-modify s f zero (c ∷ cs) keeps a = (rw (keeps c) a.0, a.1)
Above-modify s f (suc i) (c ∷ cs) keeps a = (a.0, Above-modify s f i cs keeps a.1)

Sorted-modify :
    (f : TrieNode → TrieNode) (i : ℕ) (cs : List TrieNode)
    → ((c : TrieNode) → segment (f c) ≡ segment c)
    → Sorted cs
    → Sorted (modify i f cs)
unfolding modify
Sorted-modify f i [] keeps s = tt
Sorted-modify f zero (c ∷ cs) keeps s = (rw (keeps c) s.0, s.1)
Sorted-modify f (suc i) (c ∷ cs) keeps s =
    (Above-modify (segment c) f i cs keeps s.0, Sorted-modify f i cs keeps s.1)

-- An insertion below a child keeps the order.
pub Sorted-insert_child :
    (k : Str) (f : TrieNode → TrieNode) (cs : List TrieNode)
    → ((c : TrieNode) → segment (f c) ≡ segment c)
    → Sorted cs
    → Sorted (insert_child k f cs)
unfolding insert_child
Sorted-insert_child k f cs keeps s = elim (Option-cases (position k cs)) [
  | inl nowhere ↦
      let kept : segment (f (new k)) ≡ k = keeps (new k) in
      let absent : child (segment (f (new k))) cs ≡ none = rw kept (position-none k cs nowhere) in
      rw (nowhere, insert_child)
        (Sorted-sort _ (Distinct-append cs (f (new k)) (Sorted-Distinct cs s) absent))
  | inr (i, there) ↦ rw (there, insert_child) (Sorted-modify f i cs keeps s)
]
