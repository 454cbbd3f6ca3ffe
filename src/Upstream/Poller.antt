-- ===== src/Upstream/Poller.antt =====
-- crates/gateway-core/src/health.rs: one round of `health_check_loop` after the other. The HTTP client
-- and the timer are not in the repository: a round is what they give, at a reading of the clock in
-- milliseconds.
use stateform.Prelude.{
  ℕ, ◌+◌, ◌≤◌, ◌<◌, ◌≡◌, refl, ap, ◌∙◌, false, not, leb, ltb, ◌&&◌, Option, none, some, List, [],
  ◌∷◌, length, map, All, if◌then◌else◌,
}
use stateform.Prelude.Words.{u32_mod}
use stateform.Config.Schema.{HealthCheckConfig}
use stateform.Upstream.Health.{
  Health, unhealthy, health_eq, EndpointState, health_state, is_available, mark_failure,
  mark_success,
}
use stateform.Upstream.Health.Laws.{failure, mark, mark-health_state}
use stateform.Upstream.Health.Run.{run, failures_at, Before, failing-unhealthy}

-- How the request of a round ends: it cannot be built, the timeout passes, the connection fails, or a
-- response comes with its status.
pub data Polled : Type 0 where
  not_built timed_out failed : Polled
  answered : ℕ → Polled

-- The endpoint afterwards, and the state that is reported.
unfoldable pub poll : HealthCheckConfig → ℕ → Polled → EndpointState → EndpointState × Option Health
unfolding mark_failure mark_success
poll cfg now not_built e = (e, none)
poll cfg now timed_out e = let m = mark_failure cfg now e in (m.0, some m.1)
poll cfg now failed e = let m = mark_failure cfg now e in (m.0, some m.1)
poll cfg now (answered status) e =
    let m =
      if leb 200 status && ltb status 300 then mark_success cfg now e else mark_failure cfg now e in
    (m.0, some m.1)

unfoldable pub polls : HealthCheckConfig → List (ℕ × Polled) → EndpointState → EndpointState
unfolding poll
polls cfg [] e = e
polls cfg ((now, p) ∷ rounds) e = polls cfg rounds (poll cfg now p e).0

-- A round that asks the endpoint, and gets no answer or one that is no success.
abbrev pub Fails : ℕ × Polled → Type 0
Fails (now, not_built) = ⊥
Fails (now, timed_out) = Unit
Fails (now, failed) = Unit
Fails (now, answered status) = (leb 200 status && ltb status 300) ≡ false

poll-failure :
    (cfg : HealthCheckConfig) (now : ℕ) (p : Polled) (e : EndpointState)
    → Fails (now, p)
    → (poll cfg now p e).0 ≡ (mark cfg failure now e).0
unfolding poll mark
poll-failure cfg now not_built e h = absurd h
poll-failure cfg now timed_out e h = refl
poll-failure cfg now failed e h = refl
poll-failure cfg now (answered status) e h =
    ap (λ b. (if b then mark_success cfg now e else mark_failure cfg now e).0) h

abbrev pub times : List (ℕ × Polled) → List ℕ
times rounds = map (λ r. r.0) rounds

polls-failures :
    (cfg : HealthCheckConfig) (rounds : List (ℕ × Polled)) (e : EndpointState)
    → All Fails rounds
    → polls cfg rounds e ≡ run cfg (failures_at (times rounds)) e
unfolding polls run
polls-failures cfg [] e h = refl
polls-failures cfg ((now, p) ∷ rounds) e h =
    ap (λ s. polls cfg rounds s) (poll-failure cfg now p e h.0)
    ∙ polls-failures cfg rounds (mark cfg failure now e).0 h.1

-- An endpoint whose rounds of the health check all fail, by timeout, error or a status that is
-- no success, is out of the selection after the round that makes unhealthy_threshold of them,
-- if that round comes at least the cooldown after the others and after the last change before
-- them, and the failure counter does not reach 2 ^ 32.
pub polls-unavailable :
    (cfg : HealthCheckConfig) (rounds : List (ℕ × Polled)) (now : ℕ) (p : Polled)
    (e : EndpointState)
    → All Fails rounds
    → Fails (now, p)
    → e.consecutive_failures + length (times rounds) + 1 < u32_mod
    → cfg.unhealthy_threshold ≤ length (times rounds) + 1
    → Before now e.last_state_change_ms
    → All (Before now) (times rounds)
    → is_available (poll cfg now p (polls cfg rounds e)).0 ≡ false
unfolding is_available
polls-unavailable cfg rounds now p e all one room enough old early =
    ap (λ h. not (health_eq h unhealthy))
      (ap health_state (
          poll-failure cfg now p (polls cfg rounds e) one
          ∙ ap (λ s. (mark cfg failure now s).0) (polls-failures cfg rounds e all))
        ∙ mark-health_state cfg failure now (run cfg (failures_at (times rounds)) e)
        ∙ failing-unhealthy cfg (times rounds) now e room enough old early)
