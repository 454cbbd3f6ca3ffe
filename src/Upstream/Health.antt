-- ===== src/Upstream/Health.antt =====
-- crates/gateway-core/src/upstream.rs: the health of an endpoint, and the state that is tracked for
-- it. An atomic field is a plain field and each method one atomic step; the counters wrap at 2 ^ 32
-- as `fetch_add` does. The clock's reading `now_ms()` is the argument `now`.
pub mod Laws
pub mod Run
use stateform.Prelude.{
  ℕ, zero, suc, ◌+◌, ◌-◌, ◌%◌, Bool, true, false, not, ◌&&◌, ltb, leb, if◌then◌else◌,
}
use stateform.Prelude.Text.{Str}
use stateform.Prelude.Words.{u32_mod}
use stateform.Config.Schema.{F64, HealthCheckConfig}

pub data Health : Type 0 where
  unhealthy healthy degraded : Health

-- `health as u8`
unfoldable pub to_u8 : Health → ℕ
to_u8 unhealthy = 0
to_u8 healthy = 1
to_u8 degraded = 2

unfoldable pub from_u8 : ℕ → Health
from_u8 (suc zero) = healthy
from_u8 (suc (suc zero)) = degraded
from_u8 _ = unhealthy

-- The bit patterns of 1.0, 0.5 and 0.0.
unfoldable pub as_gauge_value : Health → F64
as_gauge_value healthy = record { bits = 0x3ff0_0000_0000_0000 }
as_gauge_value degraded = record { bits = 0x3fe0_0000_0000_0000 }
as_gauge_value unhealthy = record { bits = 0 }

abbrev pub health_eq : Health → Health → Bool
health_eq unhealthy unhealthy = true
health_eq healthy healthy = true
health_eq degraded degraded = true
health_eq _ _ = false

abbrev pub flap_cooldown_ms : ℕ
flap_cooldown_ms = 10_000

pub record EndpointState : Type 0 where
  pub address : Str
  pub weight : ℕ
  pub health : ℕ
  pub consecutive_failures : ℕ
  pub consecutive_successes : ℕ
  pub last_state_change_ms : ℕ
  pub active_conns : ℕ
  pub ewma_latency : ℕ

-- `EndpointState::new`
unfoldable pub new : Str → ℕ → EndpointState
unfolding to_u8
new address weight = record {
  address = address;
  weight = weight;
  health = to_u8 healthy;
  consecutive_failures = 0;
  consecutive_successes = 0;
  last_state_change_ms = 0;
  active_conns = 0;
  ewma_latency = 0;
}

unfoldable pub health_state : EndpointState → Health
unfolding from_u8
health_state e = from_u8 e.health

unfoldable pub is_available : EndpointState → Bool
unfolding health_state
is_available e = not (health_eq (health_state e) unhealthy)

unfoldable pub transition_to : EndpointState → Health → ℕ → EndpointState
unfolding to_u8
transition_to e new_state timestamp_ms = record e {
  health = to_u8 new_state;
  last_state_change_ms = timestamp_ms;
}

-- The threshold logic of `mark_failure`, outside the cooldown.
unfoldable pub after_failure : HealthCheckConfig → Health → ℕ → Health
after_failure cfg current failures =
    if leb cfg.unhealthy_threshold failures
    then unhealthy
    else if health_eq current healthy
    then degraded
    else current

-- The threshold logic of `mark_success`, outside the cooldown.
unfoldable pub after_success : HealthCheckConfig → Health → ℕ → Health
after_success cfg current successes =
    if health_eq current unhealthy && leb 1 successes
    then degraded
    else if leb cfg.healthy_threshold successes && not (health_eq current healthy)
    then healthy
    else current

unfoldable pub in_cooldown : EndpointState → ℕ → Bool
in_cooldown e now = ltb (now - e.last_state_change_ms) flap_cooldown_ms

-- `if new_state != current { self.transition_to(new_state, now) }`
unfoldable pub settle : EndpointState → Health → Health → ℕ → EndpointState
unfolding transition_to
settle e current new_state now =
    if health_eq new_state current then e else transition_to e new_state now

unfoldable pub mark_failure : HealthCheckConfig → ℕ → EndpointState → EndpointState × Health
unfolding in_cooldown settle after_failure health_state
mark_failure cfg now e =
    let failures = (e.consecutive_failures + 1) % u32_mod in
    let counted : EndpointState = record e {
      consecutive_failures = failures;
      consecutive_successes = 0;
    } in
    let current = health_state e in
    let new_state = after_failure cfg current failures in
    if in_cooldown e now
    then (counted, current)
    else (settle counted current new_state now, new_state)

unfoldable pub mark_success : HealthCheckConfig → ℕ → EndpointState → EndpointState × Health
unfolding in_cooldown settle after_success health_state
mark_success cfg now e =
    let successes = (e.consecutive_successes + 1) % u32_mod in
    let counted : EndpointState = record e {
      consecutive_successes = successes;
      consecutive_failures = 0;
    } in
    let current = health_state e in
    let new_state = after_success cfg current successes in
    if in_cooldown e now
    then (counted, current)
    else (settle counted current new_state now, new_state)
