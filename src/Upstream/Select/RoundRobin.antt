-- ===== src/Upstream/Select/RoundRobin.antt =====
-- The weighted round robin: each available endpoint owns an interval of positions as long as its
-- effective weight.
use stateform.Prelude.{ℕ, ◌+◌, ◌%◌, ◌≤◌, ◌<◌, ◌≡◌, refl, List, [], ◌∷◌, ◌++◌, Option, some, arith}
use stateform.Prelude.Words.{u32_mod, u64_mod}
use stateform.Upstream.Select.{
  Endpoint, effective_weight, total_weight, walk, round_robin, or_first,
}

-- The sum of the weights, with no wrap-around.
abbrev pub weight_sum : List Endpoint → ℕ
weight_sum [] = 0
weight_sum (e ∷ es) = effective_weight e + weight_sum es

total_weight-eq : (es : List Endpoint) → weight_sum es < u32_mod → total_weight es ≡ weight_sum es
unfolding total_weight
total_weight-eq [] h = refl
total_weight-eq (e ∷ es) h = omega (arith, total_weight-eq es)

weight_sum-append :
    (es : List Endpoint) (e : Endpoint) (rest : List Endpoint)
    → weight_sum (es ++ e ∷ rest) ≡ weight_sum es + effective_weight e + weight_sum rest
weight_sum-append [] e rest = omega arith
weight_sum-append (x ∷ es) e rest = omega (arith, weight_sum-append es e rest)

walk-owner :
    (before : List Endpoint) (e : Endpoint) (after : List Endpoint) (acc pos : ℕ)
    → acc + weight_sum before + effective_weight e < u32_mod
    → acc + weight_sum before ≤ pos
    → pos < acc + weight_sum before + effective_weight e
    → walk pos acc (before ++ e ∷ after) ≡ some e
unfolding walk
walk-owner [] e after acc pos fits lo hi = ground arith
walk-owner (x ∷ before) e after acc pos fits lo hi =
    ground (arith, walk-owner before e after (acc + effective_weight x) pos)

or_first-some :
    (es : List Endpoint) {o : Option Endpoint} {e : Endpoint} → o ≡ some e → or_first es o ≡ some e
or_first-some es h = rw h

-- Where the weights of the available endpoints add up below 2 ^ 32, an endpoint is chosen for
-- each counter whose position, modulo the sum of all weights, lies in the interval of length
-- its effective weight that begins at the sum of the weights before it; and the counter, if it
-- is below 2 ^ 64 - 1, goes up by one.
pub round_robin-owner :
    (before : List Endpoint) (e : Endpoint) (after : List Endpoint) (counter : ℕ)
    → weight_sum (before ++ e ∷ after) < u32_mod
    → weight_sum before ≤ counter % u32_mod % weight_sum (before ++ e ∷ after)
    → counter % u32_mod % weight_sum (before ++ e ∷ after) < weight_sum before + effective_weight e
    → counter + 1 < u64_mod
    → round_robin (before ++ e ∷ after) counter ≡ (some e, counter + 1)
unfolding round_robin
round_robin-owner before e after counter fits lo hi room =
    let sum = weight_sum-append before e after in
    let total = total_weight-eq (before ++ e ∷ after) fits in
    let found =
      walk-owner before e after 0 (counter % u32_mod % weight_sum (before ++ e ∷ after))
        (omega (arith, sum)) (omega arith) (omega arith) in
    rw total (ground (arith, sum, or_first-some (before ++ e ∷ after) found))
