-- ===== src/Upstream/Retry/Backoff.antt =====
-- The jitter of the backoff.
use stateform.Prelude.{ℕ, ◌+◌, ◌*◌, ◌%◌, ◌≤◌, ◌<◌, ◌≡◌, arith}
use stateform.Prelude.Words.{u64_mod, u64_max}
use stateform.Upstream.Retry.{quarter_of, sleep_ms}

-- For a base below 2 ^ 64 and in the half of the clock's readings that should shorten the
-- pause, the subtraction wraps around, the addition saturates, and the pause is the longest
-- that there is: 2 ^ 64 - 1 milliseconds.
pub sleep_ms-saturates :
    (base nanos : ℕ)
    → base < u64_mod
    → nanos % (quarter_of base * 2) < quarter_of base
    → sleep_ms base nanos ≡ u64_max
unfolding sleep_ms
sleep_ms-saturates base nanos fits low = omega arith

-- In the other half, where the sum fits 64 bits, the pause is at least the base and below the
-- base and a quarter of it, or one millisecond where that is more.
pub sleep_ms-bounds :
    (base nanos : ℕ)
    → base + quarter_of base < u64_mod
    → quarter_of base ≤ nanos % (quarter_of base * 2)
    → (base ≤ sleep_ms base nanos) × (sleep_ms base nanos < base + quarter_of base)
unfolding sleep_ms
sleep_ms-bounds base nanos fits high = omega arith
