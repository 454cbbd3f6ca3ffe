-- ===== src/Upstream/Pool.antt =====
-- crates/gateway-core/src/upstream.rs: `update_ewma`, `UpstreamPool` and `UpstreamRegistry`.
-- The connection pool of the HTTP client is not part of the state: the client is the parameter of
-- `Retry`, by the address that it calls.
pub mod Latency
pub mod InFlight
use stateform.Prelude.{
  ℕ, zero, suc, ◌+◌, ◌*◌, ◌/◌, ◌%◌, ◌-◌, Bool, true, false, Option, none, some, List, [], ◌∷◌, keep,
  map, ◌==◌, if◌then◌else◌,
}
use stateform.Prelude.Text.{Str, str_eq}
use stateform.Prelude.Words.{u64_mod}
use stateform.Config.Schema.{Duration, EndpointConfig, UpstreamConfig, GatewayConfig}
use stateform.Upstream.Health.{EndpointState}
use stateform.Upstream.Health
use stateform.Upstream.Select.{Endpoint, Ran, done, panicked, select_endpoint}
use stateform.Upstream.Retry.{
  Reply, Result, ok, err, no_healthy_endpoints, as_millis, send_with_retry,
}

unfoldable pub update_ewma : ℕ → ℕ → ℕ
update_ewma old new_sample_ms =
    if old == 0 then new_sample_ms else (2 * new_sample_ms + (10 - 2) * old) % u64_mod / 10

pub record UpstreamPool : Type 0 where
  pub name : Str
  pub config : UpstreamConfig
  pub endpoints : List EndpointState
  pub rr_counter : ℕ

-- `UpstreamPool::new`
unfoldable pub new : Str → UpstreamConfig → UpstreamPool
new name config = record {
  name = name;
  config = config;
  endpoints =
      map (λ e. Health.new e.address e.weight)
        (keep (λ (e : EndpointConfig). e.active) config.endpoints);
  rr_counter = 0;
}

-- The endpoints with their places, the `Arc`s that a selection hands out.
unfoldable pub refs : ℕ → List EndpointState → List Endpoint
refs i [] = []
refs i (e ∷ es) = (i, e) ∷ refs (i + 1) es

unfoldable pub update_at :
    ℕ → (EndpointState → EndpointState) → List EndpointState → List EndpointState
update_at i f [] = []
update_at zero f (e ∷ es) = f e ∷ es
update_at (suc i) f (e ∷ es) = e ∷ update_at i f es

-- `active_conns.fetch_add(1)`, before the request.
unfoldable pub start_request : EndpointState → EndpointState
start_request e = record e { active_conns = (e.active_conns + 1) % u64_mod }

-- `active_conns.fetch_sub(1)` and `update_ewma`, after it.
unfoldable pub finish_request : Duration → EndpointState → EndpointState
unfolding update_ewma
finish_request elapsed e = record e {
  active_conns = (e.active_conns + u64_mod - 1) % u64_mod;
  ewma_latency = update_ewma e.ewma_latency (as_millis elapsed % u64_mod);
}

-- The result of `send`, with the pauses of its attempts.
abbrev pub Sent : Type 0 → Type 0
Sent B = Result ((ℕ × B) × Duration) × List ℕ

abbrev pub timed : {B : Type 0} → Duration → Result (ℕ × B) → Result ((ℕ × B) × Duration)
timed elapsed (ok r) = ok (r, elapsed)
timed elapsed (err e) = err e

module _ {B : Type 0} (client : Str → ℕ → Reply B) (nanos : ℕ → ℕ) (elapsed : Duration) where
  -- The request to the chosen endpoint. The other requests that run meanwhile are `InFlight`'s.
  pub send_to : UpstreamPool → Option Endpoint → UpstreamPool × Sent B
  send_to p none = (p, (err (no_healthy_endpoints p.name), []))
  send_to p (some (i, e)) =
      let outcome =
        send_with_retry p.name e.address p.config.timeouts.request p.config.retry (client e.address)
          nanos in
      let during = update_at i start_request p.endpoints in
      (
        record p { endpoints = update_at i (finish_request elapsed) during },
        (timed elapsed outcome.0, outcome.1),
      )

  pub on_choice : UpstreamPool → Ran (Option Endpoint) → Ran (UpstreamPool × Sent B)
  on_choice p panicked = panicked
  on_choice p (done o) = done (send_to p o)

  unfoldable pub send : UpstreamPool → Option Str → Ran (UpstreamPool × Sent B)
  unfolding on_choice send_to
  send p hash_key =
      let (choice, counter) =
        select_endpoint (refs 0 p.endpoints) p.config.load_balancing hash_key p.rr_counter in
      on_choice (record p { rr_counter = counter }) choice

abbrev pub UpstreamRegistry : Type 0
UpstreamRegistry = List (Str × UpstreamPool)

-- `UpstreamRegistry::build`
unfoldable pub build : GatewayConfig → UpstreamRegistry
unfolding new
build cfg = map (λ u. (u.0, new u.0 u.1)) cfg.upstreams

-- `HashMap::get`
unfoldable pub get : Str → UpstreamRegistry → Option UpstreamPool
get name [] = none
get name ((n, p) ∷ pools) = if str_eq n name then some p else get name pools
