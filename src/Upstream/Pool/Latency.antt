-- ===== src/Upstream/Pool/Latency.antt =====
-- The moving average of the latency.
use Prim.Native.Nat.{min}
use stateform.Prelude.{ℕ, ◌+◌, ◌*◌, ◌≤◌, ◌<◌, ◌≡◌, arith, max, ◌⊎◌}
use stateform.Prelude.Words.{u64_mod}
use stateform.Upstream.Pool.{update_ewma}

-- The new average lies between the old one and the sample, if the old one is not 0 and the
-- weighted sum fits 64 bits.
pub update_ewma-between :
    (old sample : ℕ)
    → 0 < old
    → 2 * sample + 8 * old < u64_mod
    → (min old sample ≤ update_ewma old sample) × (update_ewma old sample ≤ max old sample)
unfolding update_ewma
update_ewma-between old sample some_ fits = ground arith

-- Where there is an average other than 0 and the weighted sum fits 64 bits, an average above
-- the sample falls by at least one millisecond; one below the sample rises only if the sample
-- is five milliseconds or more above it.
pub update_ewma-moves :
    (old sample : ℕ)
    → 0 < old
    → 2 * sample + 8 * old < u64_mod
    → ((old ≤ sample) ⊎ (update_ewma old sample < old))
      × ((sample < old) ⊎ (old + 5 ≤ sample) ⊎ (update_ewma old sample ≡ old))
unfolding update_ewma
update_ewma-moves old sample some_ fits = ground arith
