-- ===== src/Upstream/Health/Laws.antt =====
-- What one health probe does to an endpoint: the diagram of its states, thresholds and cooldown.
use stateform.Prelude.{ℕ, ◌+◌, ◌≤◌, ◌<◌, ◌≡◌, refl, ◌≢◌, ◌⊎◌, arith}
use stateform.Prelude.Words.{u32_mod}
use stateform.Config.Schema.{HealthCheckConfig}
use stateform.Upstream.Health.{
  Health, unhealthy, healthy, degraded, to_u8, from_u8, EndpointState, health_state, transition_to,
  settle, after_failure, after_success, in_cooldown, mark_failure, mark_success, flap_cooldown_ms,
}

pub from_u8-to_u8 : (h : Health) → from_u8 (to_u8 h) ≡ h
unfolding from_u8 to_u8
from_u8-to_u8 unhealthy = refl
from_u8-to_u8 healthy = refl
from_u8-to_u8 degraded = refl

-- A probe's result, as the poller knows it.
pub data Probe : Type 0 where
  success failure : Probe

unfoldable pub mark : HealthCheckConfig → Probe → ℕ → EndpointState → EndpointState × Health
mark cfg success now e = mark_success cfg now e
mark cfg failure now e = mark_failure cfg now e

-- What a probe does outside the cooldown: the arrows of the code, each with what is counted in a row.
pub data Edge (cfg : HealthCheckConfig) (e : EndpointState) : Probe → Health → Health → Type 0 where
  step_down :
      e.consecutive_failures + 1 < cfg.unhealthy_threshold → Edge cfg e failure healthy degraded
  count_on :
      {h : Health}
      → h ≢ healthy
      → e.consecutive_failures + 1 < cfg.unhealthy_threshold
      → Edge cfg e failure h h
  remove :
      {h : Health}
      → cfg.unhealthy_threshold ≤ e.consecutive_failures + 1
      → Edge cfg e failure h unhealthy
  readmit : Edge cfg e success unhealthy degraded
  recover :
      e.consecutive_successes + 1 < cfg.healthy_threshold → Edge cfg e success degraded degraded
  restore :
      cfg.healthy_threshold ≤ e.consecutive_successes + 1 → Edge cfg e success degraded healthy
  stay_well : Edge cfg e success healthy healthy

health_state-settle :
    (e : EndpointState) (current new_state : Health) (now : ℕ)
    → health_state e ≡ current
    → health_state (settle e current new_state now) ≡ new_state
unfolding settle health_state from_u8
health_state-settle e current new_state now h = ground arith

-- The state that a probe returns is the state that it has stored.
pub mark-health_state :
    (cfg : HealthCheckConfig) (p : Probe) (now : ℕ) (e : EndpointState)
    → health_state (mark cfg p now e).0 ≡ (mark cfg p now e).1
unfolding mark mark_success mark_failure transition_to
mark-health_state cfg success now e = ground (arith, from_u8-to_u8 (mark_success cfg now e).1)
mark-health_state cfg failure now e = ground (arith, from_u8-to_u8 (mark_failure cfg now e).1)

-- The counter that a probe adds to has room for one more.
abbrev pub HasRoom : EndpointState → Type 0
HasRoom e = (e.consecutive_failures + 1 < u32_mod) × (e.consecutive_successes + 1 < u32_mod)

-- Either a probe keeps the state and the time of its last change, or it changes the state, ten
-- seconds or more after that time, and stores the present time.
pub mark-cooldown :
    (cfg : HealthCheckConfig) (p : Probe) (now : ℕ) (e : EndpointState)
    → (((mark cfg p now e).1 ≡ health_state e)
        × ((mark cfg p now e).0.last_state_change_ms ≡ e.last_state_change_ms))
      ⊎ (((mark cfg p now e).1 ≢ health_state e)
          × (e.last_state_change_ms + flap_cooldown_ms ≤ now)
          × ((mark cfg p now e).0.last_state_change_ms ≡ now))
unfolding mark mark_success mark_failure transition_to in_cooldown
mark-cooldown cfg success now e = ground arith
mark-cooldown cfg failure now e = ground arith

-- Where its counters have not reached 2 ^ 32 - 1, an endpoint leaves the pool only once
-- unhealthy_threshold failures in a row are counted, and returns to full weight only once
-- healthy_threshold successes in a row are.
pub mark-threshold :
    (cfg : HealthCheckConfig) (p : Probe) (now : ℕ) (e : EndpointState)
    → HasRoom e
    → (mark cfg p now e).1 ≢ health_state e
    → (((mark cfg p now e).1 ≢ unhealthy)
        ⊎ ((p ≡ failure) × (cfg.unhealthy_threshold ≤ e.consecutive_failures + 1)))
      × (((mark cfg p now e).1 ≢ healthy)
          ⊎ ((p ≡ success) × (cfg.healthy_threshold ≤ e.consecutive_successes + 1)))
unfolding mark mark_success mark_failure after_success after_failure
mark-threshold cfg success now e r ne = (ground arith, ground arith)
mark-threshold cfg failure now e r ne = (ground arith, ground arith)
