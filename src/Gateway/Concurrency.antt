-- ===== src/Gateway/Concurrency.antt =====
-- crates/gateway-core/src/concurrency.rs: the semaphores that a request passes, the global one first.
-- tokio's semaphores are not in the repository: making one, taking a permit where there is one, and
-- giving it back are parameters. Whether a wait ends in time is the scheduler's choice, an argument.
pub mod Permits
use stateform.Prelude.{ℕ, suc, ◌*◌, ◌^◌, ◌≡◌, Option, none, some, List, [], ◌∷◌, if◌then◌else◌}
use stateform.Prelude.Text.{Str, codes, str_eq}
use stateform.Config.Schema.{Duration, RouteConfig, GatewayConfig}
use stateform.Gateway.Response.{Response, ErrorJson, service_unavailable}

pub record SemaphoreApi : Type 1 where
  pub Semaphore : Type 0
  pub new : ℕ → Semaphore
  -- The semaphore with a permit less, where it has one.
  pub take : Semaphore → Option Semaphore
  -- What dropping a permit does.
  pub give : Semaphore → Semaphore

pub record SemaphoreLaws (a : SemaphoreApi) : Type 0 where
  pub available : a.Semaphore → ℕ
  pub available_new : (n : ℕ) → available (a.new n) ≡ n
  pub take_some : (s t : a.Semaphore) → a.take s ≡ some t → available s ≡ suc (available t)
  pub take_none : (s : a.Semaphore) → a.take s ≡ none → available s ≡ 0
  pub available_give : (s : a.Semaphore) → available (a.give s) ≡ suc (available s)

-- `HashMap::insert`
unfoldable pub insert : {V : Type 0} → Str → V → List (Str × V) → List (Str × V)
unfolding str_eq
insert key v [] = (key, v) ∷ []
insert key v ((k, w) ∷ entries) =
    if str_eq k key then (k, v) ∷ entries else (k, w) ∷ insert key v entries

unfoldable pub find : {V : Type 0} → List (Str × V) → Str → Option V
unfolding str_eq
find [] key = none
find ((k, v) ∷ entries) key = if str_eq k key then some v else find entries key

-- How a wait ends: the permit comes in time if there is one, the timeout passes, or the semaphore is
-- closed.
pub data Wait : Type 0 where
  in_time too_late closed : Wait

pub record ConcurrencyPermit : Type 0 where
  -- The route whose semaphore the permit is of.
  pub route : Option Str

module _ (a : SemaphoreApi) where
  pub record ConcurrencyLimiter : Type 0 where
    pub global : a.Semaphore
    pub routes : List (Str × a.Semaphore)
    pub acquire_timeout : Duration

  abbrev pub add_limit : Str → Option ℕ → List (Str × a.Semaphore) → List (Str × a.Semaphore)
  add_limit id none routes = routes
  add_limit id (some limit) routes = insert id (a.new limit) routes

  unfoldable pub build_routes :
      List RouteConfig → List (Str × a.Semaphore) → List (Str × a.Semaphore)
  unfolding insert
  build_routes [] routes = routes
  build_routes (r ∷ rs) routes = build_routes rs (add_limit r.id r.max_concurrent_requests routes)

  unfoldable pub build : GatewayConfig → ConcurrencyLimiter
  unfolding build_routes
  build cfg = record {
    global = a.new cfg.listener.max_concurrent_requests;
    routes = build_routes cfg.routes [];
    acquire_timeout = cfg.listener.concurrency_acquire_timeout_ms * 10 ^ 6;
  }

  -- `timeout(acquire_timeout, sem.acquire_owned()).await`: a permit and the semaphore without it, or
  -- how the wait failed.
  pub data Waited : Type 0 where
    permit : a.Semaphore → Waited
    is_closed timed_out : Waited

  abbrev pub take_or : Option a.Semaphore → Waited
  take_or none = timed_out
  take_or (some s) = permit s

  unfoldable pub acquire_owned : Wait → a.Semaphore → Waited
  acquire_owned in_time s = take_or (a.take s)
  acquire_owned too_late s = timed_out
  acquire_owned closed s = is_closed

  -- How a step of `acquire` ends.
  pub data Step (A : Type 0) : Type 0 where
    passed : A → Step A
    refused : Response → Step A

  -- Step 1, and the limiter after it.
  unfoldable pub on_global :
      ErrorJson → ConcurrencyLimiter → Waited → Step Unit × ConcurrencyLimiter
  unfolding service_unavailable
  on_global json lim (permit s) = (passed tt, record lim { global = s })
  on_global json lim is_closed =
      (refused (service_unavailable json (codes "gateway shutting down")), lim)
  on_global json lim timed_out =
      (refused (service_unavailable json (codes "server concurrency limit exceeded")), lim)

  unfoldable pub acquire_global :
      ErrorJson → ConcurrencyLimiter → Wait → Step Unit × ConcurrencyLimiter
  unfolding on_global acquire_owned
  acquire_global json lim w = on_global json lim (acquire_owned w lim.global)

  -- The global permit is dropped.
  abbrev pub drop_global : ConcurrencyLimiter → ConcurrencyLimiter
  drop_global lim = record lim { global = a.give lim.global }

  -- Step 2, on the semaphore of the route; the global permit goes back where it fails.
  unfoldable pub on_route :
      ErrorJson → ConcurrencyLimiter → Str → Waited → Step ConcurrencyPermit × ConcurrencyLimiter
  unfolding service_unavailable insert
  on_route json lim id (permit s) =
      (passed (record { route = some id }), record lim { routes = insert id s lim.routes })
  on_route json lim id is_closed =
      (refused (service_unavailable json (codes "gateway shutting down")), drop_global lim)
  on_route json lim id timed_out = (
    refused (service_unavailable json (codes "route concurrency limit exceeded")),
    drop_global lim,
  )

  unfoldable pub with_semaphore :
      ErrorJson
      → ConcurrencyLimiter
      → Str
      → Wait
      → Option a.Semaphore
      → Step ConcurrencyPermit × ConcurrencyLimiter
  unfolding on_route acquire_owned
  with_semaphore json lim id w none = (passed (record { route = none }), lim)
  with_semaphore json lim id w (some sem) = on_route json lim id (acquire_owned w sem)

  unfoldable pub acquire_route :
      ErrorJson → ConcurrencyLimiter → Str → Wait → Step ConcurrencyPermit × ConcurrencyLimiter
  unfolding with_semaphore find
  acquire_route json lim id w = with_semaphore json lim id w (find lim.routes id)

  unfoldable pub then_route :
      ErrorJson
      → Str
      → Wait
      → Step Unit × ConcurrencyLimiter
      → Step ConcurrencyPermit × ConcurrencyLimiter
  unfolding acquire_route
  then_route json id w (refused r, lim) = (refused r, lim)
  then_route json id w (passed u, lim) = acquire_route json lim id w

  -- `acquire`, where no other task comes between its two waits.
  unfoldable pub acquire :
      ErrorJson
      → ConcurrencyLimiter
      → Str
      → Wait
      → Wait
      → Step ConcurrencyPermit × ConcurrencyLimiter
  unfolding acquire_global then_route
  acquire json lim id w v = then_route json id v (acquire_global json lim w)

  abbrev pub give_route :
      Str → Option a.Semaphore → List (Str × a.Semaphore) → List (Str × a.Semaphore)
  give_route id none routes = routes
  give_route id (some s) routes = insert id (a.give s) routes

  unfoldable pub drop_fields : Option Str → ConcurrencyLimiter → ConcurrencyLimiter
  unfolding insert find
  drop_fields none lim = drop_global lim
  drop_fields (some id) lim = record (drop_global lim) {
    routes = give_route id (find lim.routes id) lim.routes;
  }

  -- A permit is dropped: its fields, in their order.
  unfoldable pub drop_permit : ConcurrencyPermit → ConcurrencyLimiter → ConcurrencyLimiter
  unfolding drop_fields
  drop_permit p lim = drop_fields p.route lim
