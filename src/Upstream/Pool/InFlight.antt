-- ===== src/Upstream/Pool/InFlight.antt =====
-- The count of an endpoint's requests in flight, over the starts and ends of any number of requests
-- in any order, and over one call of `send`.
use stateform.Prelude.{
  ℕ, zero, suc, ◌+◌, ◌<◌, ◌≡◌, refl, ap, List, [], ◌∷◌, map, length, Option, none, some, All, arith,
}
use stateform.Prelude.Text.{Str}
use stateform.Prelude.Words.{u64_mod}
use stateform.Config.Schema.{Duration}
use stateform.Upstream.Health.{EndpointState}
use stateform.Upstream.Select.{Endpoint, Ran, done, panicked, select_endpoint}
use stateform.Upstream.Retry.{Reply}
use stateform.Upstream.Pool.{
  UpstreamPool, update_at, start_request, finish_request, send_to, send, on_choice, Sent, refs,
}

-- What requests do to the endpoint that was chosen for them.
pub data Event : Type 0 where
  started : Event
  finished : Duration → Event

unfoldable pub on_event : Event → EndpointState → EndpointState
on_event started e = start_request e
on_event (finished elapsed) e = finish_request elapsed e

unfoldable pub on_events : List Event → EndpointState → EndpointState
unfolding on_event
on_events [] e = e
on_events (v ∷ vs) e = on_events vs (on_event v e)

-- How many requests are in flight after the events, from `n` on; `none` if one ends that had not
-- started.
abbrev pub in_flight : ℕ → List Event → Option ℕ
in_flight n [] = some n
in_flight n (started ∷ vs) = in_flight (suc n) vs
in_flight zero (finished elapsed ∷ vs) = none
in_flight (suc n) (finished elapsed ∷ vs) = in_flight n vs

-- However the requests to an endpoint interleave, its active_conns is the number of those in
-- flight, where no request ends that had not started and the events and the requests at their
-- start add up to fewer than 2 ^ 64.
pub on_events-active :
    (vs : List Event) (e : EndpointState) (n m : ℕ)
    → e.active_conns ≡ n
    → in_flight n vs ≡ some m
    → n + length vs < u64_mod
    → (on_events vs e).active_conns ≡ m
unfolding on_events start_request finish_request
on_events-active [] e n m is h fits = ground arith
on_events-active (started ∷ vs) e n m is h fits =
    on_events-active vs (start_request e) (suc n) m (omega arith) h (omega arith)
on_events-active (finished elapsed ∷ vs) e zero m is h fits = absurd (cc)
on_events-active (finished elapsed ∷ vs) e (suc n) m is h fits =
    on_events-active vs (finish_request elapsed e) n m (omega arith) h (omega arith)

abbrev pub Fits : EndpointState → Type 0
Fits e = e.active_conns + 1 < u64_mod

abbrev pub actives : List EndpointState → List ℕ
actives = map (λ e. e.active_conns)

actives-update_at :
    (i : ℕ) (elapsed : Duration) (es : List EndpointState)
    → All Fits es
    → actives (update_at i (finish_request elapsed) (update_at i start_request es)) ≡ actives es
unfolding update_at finish_request start_request
actives-update_at i elapsed [] f = refl
actives-update_at zero elapsed (e ∷ es) f =
    ap (λ n. n ∷ actives es) (let h : e.active_conns + 1 < u64_mod = f.0 in omega arith)
actives-update_at (suc i) elapsed (e ∷ es) f =
    ap (λ ns. e.active_conns ∷ ns) (actives-update_at i elapsed es f.1)

actives-send_to :
    {B : Type 0} (client : Str → ℕ → Reply B) (nanos : ℕ → ℕ) (elapsed : Duration)
    (p : UpstreamPool) (o : Option Endpoint)
    → All Fits p.endpoints
    → actives (send_to client nanos elapsed p o).0.endpoints ≡ actives p.endpoints
unfolding send_to
actives-send_to client nanos elapsed p none f = refl
actives-send_to client nanos elapsed p (some (i, e)) f = actives-update_at i elapsed p.endpoints f

abbrev pub KeepsCounts : {B : Type 0} → UpstreamPool → Ran (UpstreamPool × Sent B) → Type 0
KeepsCounts p panicked = Unit {0}
KeepsCounts p (done (p', sent)) = actives p'.endpoints ≡ actives p.endpoints

on_choice-KeepsCounts :
    {B : Type 0} (client : Str → ℕ → Reply B) (nanos : ℕ → ℕ) (elapsed : Duration)
    (p : UpstreamPool) (choice : Ran (Option Endpoint))
    → All Fits p.endpoints
    → KeepsCounts p (on_choice client nanos elapsed p choice)
unfolding on_choice
on_choice-KeepsCounts client nanos elapsed p panicked f = tt
on_choice-KeepsCounts client nanos elapsed p (done o) f = actives-send_to client nanos elapsed p o f

-- Whatever the client gives, also a timeout or an error, a call of send that does not panic
-- leaves the count of requests in flight at each endpoint as it was, if each count has room for
-- one more in 64 bits.
pub send-KeepsCounts :
    {B : Type 0} (client : Str → ℕ → Reply B) (nanos : ℕ → ℕ) (elapsed : Duration)
    (p : UpstreamPool) (key : Option Str)
    → All Fits p.endpoints
    → KeepsCounts p (send client nanos elapsed p key)
unfolding send
send-KeepsCounts client nanos elapsed p key f =
    let chosen = select_endpoint (refs 0 p.endpoints) p.config.load_balancing key p.rr_counter in
    on_choice-KeepsCounts client nanos elapsed (record p { rr_counter = chosen.1 }) chosen.0 f
