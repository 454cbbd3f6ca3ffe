-- ===== src/Router/Trie/Search.antt =====
-- The binary search over sorted children is the linear lookup.
use stateform.Prelude.{
  ℕ, zero, suc, ◌+◌, ◌-◌, ◌/◌, ◌≤◌, ◌<◌, ◌≡◌, sym, inl, inr, true, false, some, List, get_elem?,
  get_elem?-some, length, leb, Bool-cases, Option-cases, lt-or-ge, arith,
}
use stateform.Prelude.Text.{Str, str_ltb, str_eq_self}
use stateform.Prelude.Order.{str_ltb_irrefl, str_ltb_trans}
use stateform.Router.Trie.{TrieNode, segment, search_from, binary_search}
use stateform.Router.Trie.Keyed.{child, Sorted, Sorted-get, child-place, child-none}

module _ (k : Str) (cs : List TrieNode) (t : ℕ) (c : TrieNode) (sorted : Sorted cs)
    (at : get_elem? cs t ≡ some c) (is : segment c ≡ k) where
  -- A child above the key stands behind the key's place, any other at it or before it.
  before_above :
      (m : ℕ) {d : TrieNode} → get_elem? cs m ≡ some d → str_ltb k (segment d) ≡ true → t < m
  before_above m {d} e h = elim (lt-or-ge t m) [
    | inl lt ↦ lt
    | inr ge ↦ elim (lt-or-ge m t) [
      | inl gt ↦
          let low : str_ltb (segment d) k ≡ true = rw (← is) (Sorted-get cs m t sorted gt e at) in
          absurd
            (let both = str_ltb_trans k (segment d) k h low in let never = str_ltb_irrefl k in cc)
      | inr le ↦ let same : m ≡ t = omega arith in absurd (let never = str_ltb_irrefl k in cc)
    ]
  ]

  from_below :
      (m : ℕ) {d : TrieNode} → get_elem? cs m ≡ some d → str_ltb k (segment d) ≡ false → m ≤ t
  from_below m {d} e h = elim (lt-or-ge t m) [
    | inl lt ↦
        let high : str_ltb k (segment d) ≡ true = rw (← is) (Sorted-get cs t m sorted lt at e) in
        absurd (cc)
    | inr ge ↦ ge
  ]

  search_from-finds :
      (f base size : ℕ)
      → size ≤ f
      → base ≤ t
      → t < base + size
      → base + size ≤ length cs
      → search_from f k cs base size ≡ t
  unfolding search_from
  search_from-finds zero base size fuel lo hi inside = absurd (omega arith)
  search_from-finds (suc f) base size fuel lo hi inside = elim (lt-or-ge 1 size) [
    | inr small ↦ ground arith
    | inl large ↦
        let mid = base + size / 2 in
        let (d, there) = get_elem?-some cs mid (omega arith) in
        let more : leb size 1 ≡ false = ground arith in
        elim (Bool-cases (str_ltb k (segment d))) [
          | inl above ↦
              rw (more, there, above)
                (search_from-finds f base (size - size / 2) (omega arith) lo
                  (omega (arith, before_above mid there above)) (omega arith))
          | inr below ↦
              rw (more, there, below)
                (search_from-finds f mid (size - size / 2) (omega arith)
                  (from_below mid there below) (omega arith) (omega arith))
        ]
  ]

-- Over children in strictly increasing order `binary_search_by` finds the child that a linear search
-- finds, and nothing where that finds nothing.
pub binary_search-child :
    (k : Str) (cs : List TrieNode) → Sorted cs → binary_search k cs ≡ child k cs
unfolding binary_search
binary_search-child k cs sorted = elim (Option-cases (child k cs)) [
  | inl absent ↦
      let place = search_from (length cs) k cs 0 (length cs) in
      elim (Option-cases (get_elem? cs place)) [
        | inl outside ↦ rw (outside, binary_search) (sym absent)
        | inr (d, there) ↦
            rw (there, binary_search) (rw (child-none k cs place absent there) (sym absent))
      ]
  | inr (c, found) ↦
      let (t, lt, at, is) = child-place k cs found in
      let place =
        search_from-finds k cs t c sorted at is (length cs) 0 (length cs) (omega arith)
          (omega arith) (omega arith) (omega arith) in
      rw (place, binary_search) (rw (at, binary_search) (rw is (rw (str_eq_self k) (sym found))))
]
