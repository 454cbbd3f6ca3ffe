-- ===== src/Upstream/Health/Run.antt =====
-- The probes of one endpoint in the order in which `health_check_loop` makes them: how far apart
-- its changes of state lie, and that an endpoint which keeps failing leaves the pool.
use mathlib.Core.Logic.{◌≢◌}
use stateform.Prelude.{
  ℕ, ◌+◌, ◌≤◌, ◌<◌, ◌≡◌, inl, inr, List, [], ◌∷◌, length, All, if◌then◌else◌, arith, true, false,
}
use stateform.Prelude.Words.{u32_mod}
use stateform.Config.Schema.{HealthCheckConfig}
use stateform.Upstream.Health.{
  Health, unhealthy, health_eq, EndpointState, health_state, in_cooldown, after_failure,
  transition_to, mark_failure, flap_cooldown_ms,
}
use stateform.Upstream.Health.Laws.{Probe, failure, mark, mark-cooldown}

abbrev pub Probes : Type 0
Probes = List (Probe × ℕ)

unfoldable pub run : HealthCheckConfig → Probes → EndpointState → EndpointState
run cfg [] e = e
run cfg ((p, now) ∷ ps) e = run cfg ps (mark cfg p now e).0

-- The times at which a run changes the health.
unfoldable pub changes : HealthCheckConfig → Probes → EndpointState → List ℕ
changes cfg [] e = []
changes cfg ((p, now) ∷ ps) e =
    let later = changes cfg ps (mark cfg p now e).0 in
    if health_eq (mark cfg p now e).1 (health_state e) then later else now ∷ later

-- Each time lies at least the cooldown behind the one before it.
abbrev pub Spaced : ℕ → List ℕ → Type 0
Spaced last [] = Unit {0}
Spaced last (t ∷ ts) = (last + flap_cooldown_ms ≤ t) × Spaced t ts

health_eq_self : (h k : Health) → h ≡ k → health_eq h k ≡ true
health_eq_self h k e = ground arith

health_eq_ne : (h k : Health) → h ≢ k → health_eq h k ≡ false
health_eq_ne h k e = ground arith

-- Whatever the probes and the clock, two changes of an endpoint's health lie at least ten
-- seconds apart, and the first lies that far behind the last change before the run.
pub changes-Spaced :
    (cfg : HealthCheckConfig) (ps : Probes) (e : EndpointState)
    → Spaced e.last_state_change_ms (changes cfg ps e)
unfolding changes
changes-Spaced cfg [] e = tt
changes-Spaced cfg ((p, now) ∷ ps) e = elim (mark-cooldown cfg p now e) [
  | inl (same, kept) ↦
      rw (health_eq_self _ _ same) (rw kept at (changes-Spaced cfg ps (mark cfg p now e).0))
  | inr (other, late, stored) ↦
      rw (health_eq_ne _ _ other) (late, rw stored at (changes-Spaced cfg ps (mark cfg p now e).0))
]

abbrev pub failures_at : List ℕ → Probes
failures_at [] = []
failures_at (t ∷ ts) = (failure, t) ∷ failures_at ts

-- The times `t` lie at least the cooldown before `now`.
abbrev pub Before : ℕ → ℕ → Type 0
Before now t = t + flap_cooldown_ms ≤ now

failure-counts :
    (cfg : HealthCheckConfig) (now : ℕ) (e : EndpointState)
    → e.consecutive_failures + 1 < u32_mod
    → (mark cfg failure now e).0.consecutive_failures ≡ e.consecutive_failures + 1
unfolding mark mark_failure transition_to
failure-counts cfg now e room = ground arith

mark-Before :
    (cfg : HealthCheckConfig) (t now : ℕ) (e : EndpointState)
    → Before now e.last_state_change_ms
    → Before now t
    → Before now (mark cfg failure t e).0.last_state_change_ms
mark-Before cfg t now e b bt = omega (arith, mark-cooldown cfg failure t e)

failures-counted :
    (cfg : HealthCheckConfig) (ts : List ℕ) (now : ℕ) (e : EndpointState)
    → e.consecutive_failures + length ts < u32_mod
    → Before now e.last_state_change_ms
    → All (Before now) ts
    → ((run cfg (failures_at ts) e).consecutive_failures ≡ e.consecutive_failures + length ts)
      × Before now (run cfg (failures_at ts) e).last_state_change_ms
unfolding run
failures-counted cfg [] now e room b bs = (omega arith, b)
failures-counted cfg (t ∷ ts) now e room b bs =
    let c : (mark cfg failure t e).0.consecutive_failures ≡ e.consecutive_failures + 1 =
      failure-counts cfg t e (omega arith) in
    let ih =
      failures-counted cfg ts now (mark cfg failure t e).0 (omega arith)
        (mark-Before cfg t now e b bs.0) bs.1 in
    (omega (arith, ih), ih.1)

failure-removes :
    (cfg : HealthCheckConfig) (now : ℕ) (e : EndpointState)
    → e.consecutive_failures + 1 < u32_mod
    → cfg.unhealthy_threshold ≤ e.consecutive_failures + 1
    → Before now e.last_state_change_ms
    → (mark cfg failure now e).1 ≡ unhealthy
unfolding mark mark_failure after_failure in_cooldown
failure-removes cfg now e room enough b = ground arith

-- An endpoint that fails unhealthy_threshold probes in a row is unhealthy after the last of
-- them, if that one comes at least the cooldown after the others and after the last change
-- before them, and the failure counter does not reach 2 ^ 32.
pub failing-unhealthy :
    (cfg : HealthCheckConfig) (ts : List ℕ) (now : ℕ) (e : EndpointState)
    → e.consecutive_failures + length ts + 1 < u32_mod
    → cfg.unhealthy_threshold ≤ length ts + 1
    → Before now e.last_state_change_ms
    → All (Before now) ts
    → (mark cfg failure now (run cfg (failures_at ts) e)).1 ≡ unhealthy
failing-unhealthy cfg ts now e room enough b bs =
    let c = failures-counted cfg ts now e (omega arith) b bs in
    failure-removes cfg now (run cfg (failures_at ts) e) (omega (arith, c)) (omega (arith, c)) c.1
