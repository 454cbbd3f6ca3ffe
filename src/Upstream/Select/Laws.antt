-- ===== src/Upstream/Select/Laws.antt =====
-- What every selection algorithm promises: the endpoint is one of the pool's and available, and
-- there is none only when no endpoint is available.

use stateform.Prelude.{
  ℕ, ◌+◌, ◌*◌, ◌%◌, ◌/◌, ◌≤◌, ◌<◌, ◌≡◌, refl, ◌≢◌, ◌⊎◌, inl, inr, true, List, [], ◌∷◌, Option, none,
  some, Memᴰ, length, get_elem?, get_elem?-some, Memᴰ-get_elem?, ltb, ◌==◌, arith, Bool-cases,
  if◌then◌else◌, ap, sym, subst, ◌∙◌, Memᴰ-keep,
}
use stateform.Prelude.Text.{Str}
use stateform.Prelude.Words.{u32_mod, u64_mod}
use stateform.Config.Schema.{
  F64, LoadBalancingConfig, weighted_round_robin, least_connections, consistent_hashing,
}
use stateform.Upstream.Health.{is_available}
use stateform.Upstream.Select.{
  Endpoint, state_of, done, panicked, round_robin, or_first, walk, total_weight, score,
  effective_weight, min_from, hashed_choice, available, choose, select_endpoint, fnv1a_64,
  key_or_default,
}

-- A choice among `es`: one of them.
abbrev IsAmong : List Endpoint → Option Endpoint → Type 0
IsAmong es o = (e : Endpoint) × (o ≡ some e) × Memᴰ e es

IsAmong-cons :
    (x : Endpoint) (es : List Endpoint) (o : Option Endpoint) → IsAmong es o → IsAmong (x ∷ es) o
IsAmong-cons x es o (e, found, m) = (e, found, Memᴰ.tail m)

walk-IsAmong :
    (pos acc : ℕ) (es : List Endpoint) → (walk pos acc es ≡ none) ⊎ IsAmong es (walk pos acc es)
unfolding walk
walk-IsAmong pos acc [] = inl refl
walk-IsAmong pos acc (e ∷ es) =
    let acc' = (acc + effective_weight e) % u32_mod in
    elim (Bool-cases (ltb pos acc')) [
      | inl here ↦ rw here (inr (e, refl, Memᴰ.head refl))
      | inr past ↦ rw past (elim (walk-IsAmong pos acc' es) [
        | inl nothing ↦ inl nothing
        | inr among ↦ inr (IsAmong-cons e es _ among)
      ])
    ]

or_first-IsAmong :
    (e : Endpoint) (es : List Endpoint) (o : Option Endpoint)
    → (o ≡ none) ⊎ IsAmong (e ∷ es) o
    → IsAmong (e ∷ es) (or_first (e ∷ es) o)
or_first-IsAmong e es o (inl nothing) = rw nothing (e, refl, Memᴰ.head refl)
or_first-IsAmong e es o (inr (x, found, m)) = rw found (x, refl, m)

round_robin-IsAmong :
    (e : Endpoint) (es : List Endpoint) (counter : ℕ)
    → IsAmong (e ∷ es) (round_robin (e ∷ es) counter).0
unfolding round_robin
round_robin-IsAmong e es counter =
    let total = total_weight (e ∷ es) in
    let pos = counter % u32_mod % total in
    elim (Bool-cases (total == 0)) [
      | inl zero_weight ↦ rw zero_weight (e, refl, Memᴰ.head refl)
      | inr positive ↦ rw positive (or_first-IsAmong e es _ (walk-IsAmong pos 0 (e ∷ es)))
    ]

min_from-among : (best : Endpoint) (es : List Endpoint) → Memᴰ (min_from best es) (best ∷ es)
unfolding min_from
min_from-among best [] = Memᴰ.head refl
min_from-among best (e ∷ es) = elim (Bool-cases (ltb (score e) (score best))) [
  | inl less ↦ rw less (Memᴰ.tail (min_from-among e es))
  | inr not_less ↦ rw not_less (elim (min_from-among best es) [
    | Memᴰ.head same ↦ Memᴰ.head same
    | Memᴰ.tail m ↦ Memᴰ.tail (Memᴰ.tail m)
  ])
]

-- No endpoint has a score below `n`.
abbrev pub IsLeast : ℕ → List Endpoint → Type 0
IsLeast n [] = Unit {0}
IsLeast n (e ∷ es) = (n ≤ score e) × IsLeast n es

lesser-le :
    (best e : Endpoint)
    → (score (if ltb (score e) (score best) then e else best) ≤ score best)
      × (score (if ltb (score e) (score best) then e else best) ≤ score e)
lesser-le best e = elim (Bool-cases (ltb (score e) (score best))) [
  | inl less ↦ rw less (ground arith, ground arith)
  | inr not_less ↦ rw not_less (ground arith, ground arith)
]

min_from-IsLeast :
    (best : Endpoint) (es : List Endpoint)
    → (score (min_from best es) ≤ score best) × IsLeast (score (min_from best es)) es
unfolding min_from
min_from-IsLeast best [] = (omega arith, tt)
min_from-IsLeast best (e ∷ es) =
    let better : Endpoint = if ltb (score e) (score best) then e else best in
    let ih = min_from-IsLeast better es in
    let bound = lesser-le best e in (omega (arith, ih, bound), (omega (arith, ih, bound), ih.1))

-- The index of a point of the ring is always inside the list.
hashed_choice-IsAmong :
    (e : Endpoint) (es : List Endpoint) (virtual_nodes hash : ℕ)
    → 0 < virtual_nodes
    → length (e ∷ es) * virtual_nodes < u64_mod
    → (o : Option Endpoint) × (hashed_choice (e ∷ es) virtual_nodes hash ≡ done o)
      × IsAmong (e ∷ es) o
unfolding hashed_choice
hashed_choice-IsAmong e es virtual_nodes hash h fits =
    let all = e ∷ es in
    let ring = length all * virtual_nodes % u64_mod in
    let i = hash % ring / virtual_nodes % length all in
    let (x, found) = get_elem?-some all i (omega arith) in
    let positive : 0 < length all * virtual_nodes = grind arith in
    (get_elem? all i, ground arith, (x, found, Memᴰ-get_elem? all i found))

-- The algorithm's own numbers are usable for these available endpoints: for consistent hashing,
-- there is a virtual node, and the size of the ring fits `usize`.
abbrev pub IsUsable : LoadBalancingConfig → List Endpoint → Type 0
IsUsable weighted_round_robin es = Unit {0}
IsUsable (least_connections alpha) es = Unit {0}
IsUsable (consistent_hashing header virtual_nodes) es =
    (0 < virtual_nodes) × (length es * virtual_nodes < u64_mod)

choose-IsAmong :
    (e : Endpoint) (es : List Endpoint) (algorithm : LoadBalancingConfig) (key : Option Str)
    (counter : ℕ)
    → IsUsable algorithm (e ∷ es)
    → (o : Option Endpoint) × ((choose (e ∷ es) algorithm key counter).0 ≡ done o)
      × IsAmong (e ∷ es) o
unfolding choose
choose-IsAmong e es weighted_round_robin key counter u =
    ((round_robin (e ∷ es) counter).0, refl, round_robin-IsAmong e es counter)
choose-IsAmong e es (least_connections alpha) key counter u =
    (some (min_from e es), refl, (min_from e es, refl, min_from-among e es))
choose-IsAmong e es (consistent_hashing header virtual_nodes) key counter u =
    hashed_choice-IsAmong e es virtual_nodes (fnv1a_64 (key_or_default key)) u.0 u.1

select-IsAmong :
    (es all : List Endpoint) (algorithm : LoadBalancingConfig) (key : Option Str) (counter : ℕ)
    → available all ≡ es
    → IsUsable algorithm es
    → ((es ≡ []) × ((select_endpoint all algorithm key counter).0 ≡ done none))
      ⊎ ((o : Option Endpoint) × ((select_endpoint all algorithm key counter).0 ≡ done o)
          × IsAmong es o)
unfolding select_endpoint
select-IsAmong [] all algorithm key counter split u = inl (refl, rw (split, select_endpoint) refl)
select-IsAmong (e ∷ es) all algorithm key counter split u =
    inr (rw (split, select_endpoint) (choose-IsAmong e es algorithm key counter u))

-- Where consistent hashing, if it is the algorithm, has a virtual node and a ring whose size
-- fits 64 bits, a selection never panics. It gives no endpoint exactly when none of the pool's
-- endpoints is available, and the endpoint that it gives is one of the pool's and available.
pub select_endpoint-available :
    (endpoints : List Endpoint) (algorithm : LoadBalancingConfig) (key : Option Str) (counter : ℕ)
    → IsUsable algorithm (available endpoints)
    → ((available endpoints ≡ [])
        × ((select_endpoint endpoints algorithm key counter).0 ≡ done none))
      ⊎ ((e : Endpoint) × ((select_endpoint endpoints algorithm key counter).0 ≡ done (some e))
          × Memᴰ e endpoints
          × (is_available (state_of e) ≡ true))
select_endpoint-available endpoints algorithm key counter u =
    elim (select-IsAmong (available endpoints) endpoints algorithm key counter refl u) [
      | inl nothing ↦ inl nothing
      | inr (o, chosen, (e, found, m)) ↦
          let (inside, up) = Memᴰ-keep (λ x. is_available (state_of x)) endpoints m in
          inr (e, chosen ∙ ap (λ x. done x) found, inside, up)
    ]

-- Consistent hashing with no virtual nodes panics as soon as an endpoint is available, whatever
-- the key.
pub select_endpoint-panics :
    (endpoints : List Endpoint) (header : Str) (key : Option Str) (counter : ℕ)
    → available endpoints ≢ []
    → (select_endpoint endpoints (consistent_hashing header 0) key counter).0 ≡ panicked
unfolding select_endpoint choose hashed_choice
select_endpoint-panics endpoints header key counter some_up = ground arith

-- With an endpoint available, least connections gives an endpoint of the pool that is
-- available, and no available endpoint has a lower score.
pub least_connections-IsLeast :
    (endpoints : List Endpoint) (alpha : F64) (key : Option Str) (counter : ℕ)
    → available endpoints ≢ []
    → (e : Endpoint) × ((select_endpoint endpoints (least_connections alpha) key counter).0
        ≡ done (some e))
      × Memᴰ e endpoints
      × (is_available (state_of e) ≡ true)
      × IsLeast (score e) (available endpoints)
unfolding select_endpoint choose
least_connections-IsLeast endpoints alpha key counter some_up = go (available endpoints) refl
  where
    go :
        (es : List Endpoint)
        → available endpoints ≡ es
        → (e : Endpoint) × ((select_endpoint endpoints (least_connections alpha) key counter).0
            ≡ done (some e))
          × Memᴰ e endpoints
          × (is_available (state_of e) ≡ true)
          × IsLeast (score e) (available endpoints)
    go [] split = absurd (some_up split)
    go (e ∷ es) split =
        let there = subst (λ l. Memᴰ (min_from e es) l) (sym split) (min_from-among e es) in
        let (inside, up) = Memᴰ-keep (λ x. is_available (state_of x)) endpoints there in
        rw (split, select_endpoint) (min_from e es, refl, inside, up, min_from-IsLeast e es)
