-- ===== src/Router/Trie/Keyed.antt =====
-- The children of a node by their segments: the linear lookup that the binary search stands for,
-- and what inserting, changing and sorting children do to it.
use stateform.Prelude.{
  ℕ, zero, suc, ◌<◌, ◌≡◌, refl, ap, inl, inr, true, false, Option, none, some, List, [], ◌∷◌, ◌++◌,
  get_elem?, length, if◌then◌else◌, Bool-cases, Option-cases, ◌∙◌, arith,
}
use stateform.Prelude.Text.{Str, str_eq, str_eq_iff, str_ltb}
use stateform.Prelude.Order.{str_ltb_irrefl}
use stateform.Router.Trie.{
  TrieNode, segment, new, position, modify, insert_sorted, sort, insert_child, to_list, of_list,
}

-- The first child with the segment.
unfoldable pub child : Str → List TrieNode → Option TrieNode
child k [] = none
child k (c ∷ cs) = if str_eq (segment c) k then some c else child k cs

abbrev pub Above : Str → List TrieNode → Type 0
Above s [] = Unit {0}
Above s (c ∷ cs) = (str_ltb s (segment c) ≡ true) × Above s cs

-- Strictly increasing segments.
abbrev pub Sorted : List TrieNode → Type 0
Sorted [] = Unit {0}
Sorted (c ∷ cs) = Above (segment c) cs × Sorted cs

pub to_list-of_list : (cs : List TrieNode) → to_list (of_list cs) ≡ cs
to_list-of_list [] = refl
to_list-of_list (c ∷ cs) = ap (λ ds. c ∷ ds) (to_list-of_list cs)

pub Above-get :
    (s : Str) (cs : List TrieNode) (i : ℕ) {c : TrieNode}
    → Above s cs
    → get_elem? cs i ≡ some c
    → str_ltb s (segment c) ≡ true
Above-get s [] i a e = absurd (cc)
Above-get s (d ∷ cs) zero a e = ground arith
Above-get s (d ∷ cs) (suc i) a e = Above-get s cs i a.1 e

pub Sorted-get :
    (cs : List TrieNode) (i j : ℕ) {c d : TrieNode}
    → Sorted cs
    → i < j
    → get_elem? cs i ≡ some c
    → get_elem? cs j ≡ some d
    → str_ltb (segment c) (segment d) ≡ true
Sorted-get [] i j s h e f = absurd (cc)
Sorted-get (x ∷ cs) i zero s h e f = absurd (omega arith)
Sorted-get (x ∷ cs) zero (suc j) {c} {d} s h e f =
    let same : x ≡ c = cc in rw (← same) (Above-get (segment x) cs j s.0 f)
Sorted-get (x ∷ cs) (suc i) (suc j) s h e f = Sorted-get cs i j s.1 (omega arith) e f

-- A child that is found stands at a place of the slice, and has the segment.
pub child-place :
    (k : Str) (cs : List TrieNode) {c : TrieNode}
    → child k cs ≡ some c
    → (i : ℕ) × (i < length cs) × (get_elem? cs i ≡ some c) × (segment c ≡ k)
unfolding child
child-place k [] e = absurd (cc)
child-place k (d ∷ cs) e = elim (Bool-cases (str_eq (segment d) k)) [
  | inl here ↦ (0, omega arith, ground arith, ground (arith, str_eq_iff (segment d) k))
  | inr past ↦
      let (i, lt, at, is) = child-place k cs (rw (past, child) at e) in (suc i, omega arith, at, is)
]

pub child-none :
    (k : Str) (cs : List TrieNode) (i : ℕ) {c : TrieNode}
    → child k cs ≡ none
    → get_elem? cs i ≡ some c
    → str_eq (segment c) k ≡ false
unfolding child
child-none k [] i h e = absurd (cc)
child-none k (d ∷ cs) zero h e = ground arith
child-none k (d ∷ cs) (suc i) h e = child-none k cs i (ground arith) e

-- The code's `position` finds a place exactly when there is a child, and changing the child there
-- changes what is found under its segment and nothing else.
pub child-modify :
    (k q : Str) (f : TrieNode → TrieNode) (cs : List TrieNode) (i : ℕ)
    → ((c : TrieNode) → segment (f c) ≡ segment c)
    → position k cs ≡ some i
    → (c : TrieNode) × (child k cs ≡ some c)
      × (child q (modify i f cs) ≡ (if str_eq k q then some (f c) else child q cs))
unfolding child position modify
child-modify k q f [] i keeps e = absurd (cc)
child-modify k q f (d ∷ cs) zero keeps e =
    let here : str_eq (segment d) k ≡ true = ground arith in
    let is : segment d ≡ k = (str_eq_iff (segment d) k).0 here in
    let kept : segment (f d) ≡ k = rw keeps is in (d, rw here refl, rw (kept, is) (ground arith))
child-modify k q f (d ∷ cs) (suc i) keeps e =
    let past : str_eq (segment d) k ≡ false = ground arith in
    let (c, found, changed) = child-modify k q f cs i keeps (ground arith) in
    (
      c,
      rw past found,
      ground (arith, changed, str_eq_iff (segment d) k, str_eq_iff (segment d) q, str_eq_iff k q),
    )

pub child-insert_sorted :
    (q : Str) (n : TrieNode) (cs : List TrieNode)
    → child q (insert_sorted n cs) ≡ (if str_eq (segment n) q then some n else child q cs)
unfolding child insert_sorted
child-insert_sorted q n [] = refl
child-insert_sorted q n (c ∷ cs) = ground (
  arith,
  child-insert_sorted q n cs,
  str_eq_iff (segment c) q,
  str_eq_iff (segment n) q,
  str_ltb_irrefl q,
)

pub child-sort : (q : Str) (cs : List TrieNode) → child q (sort cs) ≡ child q cs
unfolding child sort
child-sort q [] = refl
child-sort q (c ∷ cs) =
    child-insert_sorted q c (sort cs)
    ∙ ap (λ o. if str_eq (segment c) q then some c else o) (child-sort q cs)

pub child-append :
    (q : Str) (cs : List TrieNode) (n : TrieNode)
    → child (segment n) cs ≡ none
    → child q (cs ++ n ∷ []) ≡ (if str_eq (segment n) q then some n else child q cs)
unfolding child
child-append q [] n h = refl
child-append q (c ∷ cs) n h = ground (
  arith,
  child-append q cs n,
  str_eq_iff (segment c) q,
  str_eq_iff (segment n) q,
  str_eq_iff (segment c) (segment n),
)

pub position-none : (k : Str) (cs : List TrieNode) → position k cs ≡ none → child k cs ≡ none
unfolding position child
position-none k [] e = refl
position-none k (c ∷ cs) e = ground (arith, position-none k cs)

-- The child below which an insertion goes on: the one with the segment, or a new one.
unfoldable pub or_new : Str → Option TrieNode → TrieNode
or_new k none = new k
or_new k (some c) = c

-- After an insertion below the segment `k` the child with that segment is the old one or a new one,
-- with the insertion made, and every other child is found as before.
pub child-insert_child :
    (k q : Str) (f : TrieNode → TrieNode) (cs : List TrieNode)
    → ((c : TrieNode) → segment (f c) ≡ segment c)
    → child q (insert_child k f cs)
      ≡ (if str_eq k q then some (f (or_new k (child k cs))) else child q cs)
unfolding insert_child or_new
child-insert_child k q f cs keeps = elim (Option-cases (position k cs)) [
  | inl nowhere ↦
      let absent = position-none k cs nowhere in
      let kept : segment (f (new k)) ≡ k = keeps (new k) in
      rw (nowhere, insert_child)
        (child-sort q (cs ++ f (new k) ∷ [])
          ∙ child-append q cs (f (new k)) (rw (kept, absent) refl)
          ∙ rw (kept, absent) refl)
  | inr (i, there) ↦
      let (c, found, changed) = child-modify k q f cs i keeps there in
      rw (there, insert_child) (changed ∙ rw found refl)
]
