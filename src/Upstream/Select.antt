-- ===== src/Upstream/Select.antt =====
-- crates/gateway-core/src/upstream.rs: `select_endpoint` and `fnv1a_64`.
-- An `Arc<EndpointState>` is its place among the pool's endpoints with the state that it points at.
-- The arithmetic is that of a release build: sums of `u32` and products of `usize` wrap. A
-- remainder or a quotient by zero panics.
pub mod Laws
pub mod RoundRobin
use Prim.Native.Nat.{bit_xor}
use stateform.Prelude.{
  ℕ, suc, ◌+◌, ◌*◌, ◌/◌, ◌%◌, Bool, true, false, List, [], ◌∷◌, Option, none, some, length, keep,
  first, get_elem?, max, ltb, ◌==◌, if◌then◌else◌,
}
use stateform.Prelude.Text.{Str, codes}
use stateform.Prelude.Words.{u32_mod, u64_mod, saturating_mul}
use stateform.Config.Schema.{
  LoadBalancingConfig, weighted_round_robin, least_connections, consistent_hashing,
}
use stateform.Upstream.Health.{
  healthy, degraded, unhealthy, EndpointState, health_state, is_available, health_eq,
}

abbrev pub Endpoint : Type 0
Endpoint = ℕ × EndpointState

abbrev pub state_of : Endpoint → EndpointState
state_of e = e.1

-- What a call comes to: a value, or a panic.
pub data Ran {ℓ} (A : Type ℓ) : Type ℓ where
  done : A → Ran A
  panicked : Ran A

unfoldable pub effective_weight : Endpoint → ℕ
effective_weight e = elim (health_state (state_of e)) [
  | healthy ↦ (state_of e).weight
  | degraded ↦ max ((state_of e).weight / 2) 1
  | unhealthy ↦ 0
]

unfoldable pub total_weight : List Endpoint → ℕ
total_weight [] = 0
total_weight (e ∷ es) = (effective_weight e + total_weight es) % u32_mod

-- The loop over the available endpoints, from `acc` on.
unfoldable pub walk : ℕ → ℕ → List Endpoint → Option Endpoint
walk pos acc [] = none
walk pos acc (e ∷ es) =
    let acc' = (acc + effective_weight e) % u32_mod in
    let rest = walk pos acc' es in if ltb pos acc' then some e else rest

abbrev pub or_first : List Endpoint → Option Endpoint → Option Endpoint
or_first es none = first es
or_first es (some e) = some e

-- The choice, and the counter after it.
unfoldable pub round_robin : List Endpoint → ℕ → Option Endpoint × ℕ
unfolding walk total_weight
round_robin available counter =
    let total = total_weight available in
    let pos = counter % u32_mod % total in
    if total == 0
    then (first available, counter)
    else (or_first available (walk pos 0 available), (counter + 1) % u64_mod)

unfoldable pub score : Endpoint → ℕ
score e =
    let conns = (state_of e).active_conns in
    let latency = (state_of e).ewma_latency in
    let penalty : ℕ = if health_eq (health_state (state_of e)) degraded then 2 else 1 in
    let base = if latency == 0 then conns else saturating_mul conns latency in
    saturating_mul base penalty

-- `min_by_key`: the first of the elements with the least key.
unfoldable pub min_from : Endpoint → List Endpoint → Endpoint
min_from best [] = best
min_from best (e ∷ es) = min_from (if ltb (score e) (score best) then e else best) es

unfoldable pub least_connections_choice : List Endpoint → Option Endpoint
unfolding min_from
least_connections_choice [] = none
least_connections_choice (e ∷ es) = some (min_from e es)

abbrev pub fnv_offset : ℕ
fnv_offset = 14695981039346656037

abbrev pub fnv_prime : ℕ
fnv_prime = 1099511628211

unfoldable pub fnv1a_from : ℕ → List ℕ → ℕ
fnv1a_from hash [] = hash
fnv1a_from hash (b ∷ bs) = fnv1a_from (bit_xor hash b * fnv_prime % u64_mod) bs

unfoldable pub fnv1a_64 : List ℕ → ℕ
unfolding fnv1a_from
fnv1a_64 bytes = fnv1a_from fnv_offset bytes

-- The bytes of a text are its code points where it is ASCII, as a header value of `to_str` is.
abbrev pub key_or_default : Option Str → Str
key_or_default none = codes "default"
key_or_default (some key) = key

unfoldable pub hashed_choice : List Endpoint → ℕ → ℕ → Ran (Option Endpoint)
hashed_choice available virtual_nodes hash =
    let ring_size = length available * virtual_nodes % u64_mod in
    let idx = hash % ring_size / virtual_nodes in
    if ring_size == 0 then panicked else done (get_elem? available (idx % length available))

abbrev pub available : List Endpoint → List Endpoint
available = keep (λ e. is_available (state_of e))

unfoldable pub choose :
    List Endpoint → LoadBalancingConfig → Option Str → ℕ → Ran (Option Endpoint) × ℕ
unfolding round_robin least_connections_choice hashed_choice
choose es weighted_round_robin hash_key counter =
    (done (round_robin es counter).0, (round_robin es counter).1)
choose es (least_connections ewma_alpha) hash_key counter =
    (done (least_connections_choice es), counter)
choose es (consistent_hashing hash_header virtual_nodes) hash_key counter =
    (hashed_choice es virtual_nodes (fnv1a_64 (key_or_default hash_key)), counter)

unfoldable pub select_endpoint :
    List Endpoint → LoadBalancingConfig → Option Str → ℕ → Ran (Option Endpoint) × ℕ
unfolding choose
select_endpoint endpoints algorithm hash_key counter = elim (available endpoints) [
  | [] ↦ (done none, counter)
  | e ∷ es ↦ choose (e ∷ es) algorithm hash_key counter
]
