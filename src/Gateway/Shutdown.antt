-- ===== src/Gateway/Shutdown.antt =====
-- crates/gateway-core/src/shutdown.rs: the count of the requests in flight, and the wait for them.
-- The clock and the count are read at most once each in a round of the loop; what a round reads is an
-- argument. Times are nanoseconds.
pub mod Drain
use stateform.Prelude.{
  ℕ, zero, suc, ◌+◌, ◌-◌, ◌*◌, ◌^◌, ◌%◌, Bool, true, false, leb, ◌==◌, Option, none, some,
  if◌then◌else◌,
}
use stateform.Prelude.Words.{u64_mod, wrapping_sub}
use stateform.Config.Schema.{Duration}

abbrev pub drain_timeout : Duration
drain_timeout = 30 * 10 ^ 9

-- `Duration::from_millis(50)`
abbrev pub pause : Duration
pause = 50 * 10 ^ 6

pub record ShutdownCoordinator : Type 0 where
  -- What the watch channel holds.
  pub signal : Bool
  pub counter : ℕ

abbrev pub new : ShutdownCoordinator
new = record { signal = false; counter = 0 }

-- `ShutdownSignal::is_set`
abbrev pub is_set : ShutdownCoordinator → Bool
is_set c = c.signal

-- `acquire`, and the drop of a `DrainGuard`.
unfoldable pub acquire : ShutdownCoordinator → ShutdownCoordinator
acquire c = record c { counter = (c.counter + 1) % u64_mod }

unfoldable pub drop_guard : ShutdownCoordinator → ShutdownCoordinator
drop_guard c = record c { counter = wrapping_sub c.counter 1 }

-- How the wait ends: all requests done, or so many left at the timeout.
pub data Drained : Type 0 where
  complete : Drained
  forced : ℕ → Drained

-- What the rounds read, by their number: the counter at the test, the clock, and the counter after it.
pub record Rounds : Type 0 where
  pub counter : ℕ → ℕ
  pub clock : ℕ → ℕ
  pub remaining : ℕ → ℕ

-- One round: an end, or none.
unfoldable pub round : ℕ → Rounds → ℕ → Option Drained
round start r i =
    if r.counter i == 0
    then some complete
    else (if leb drain_timeout (r.clock i - start) then some (forced (r.remaining i)) else none)

abbrev pub end_or : Option Drained → Option Drained → Option Drained
end_or none rest = rest
end_or (some d) rest = some d

-- The loop from the round `i`, on fuel.
unfoldable pub drain : ℕ → ℕ → Rounds → ℕ → Option Drained
unfolding round
drain zero start r i = none
drain (suc fuel) start r i = end_or (round start r i) (drain fuel start r (suc i))

-- The rounds that the timeout leaves room for, and the one at which it has passed.
unfoldable pub max_rounds : ℕ
max_rounds = 601

-- `shutdown`: the signal is sent, then the loop runs.
unfoldable pub shutdown : ShutdownCoordinator → ℕ → Rounds → Option Drained × ShutdownCoordinator
unfolding drain max_rounds
shutdown c start r = (drain max_rounds start r 0, record c { signal = true })
