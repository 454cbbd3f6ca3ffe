-- ===== src/Gateway/Concurrency/Permits.antt =====
-- crates/gateway-core/src/concurrency.rs: the permits that tasks hold, over any interleaving of their
-- calls of `acquire` and of the permits that they drop.
pub mod Steps
pub mod Routes
pub mod Limits
use stateform.Prelude.{
  ℕ, zero, suc, ◌+◌, ◌≤◌, ◌≡◌, refl, sym, ap, ◌∙◌, Bool, true, false, Option, none, some, List, [],
  ◌∷◌, ◌++◌, length, if◌then◌else◌,
}
use stateform.Prelude.Text.{Str, str_eq}
use stateform.Gateway.Response.{Response, ErrorJson}
use stateform.Gateway.Concurrency.{
  SemaphoreApi, SemaphoreLaws, ConcurrencyLimiter, ConcurrencyPermit, Wait, in_time, passed,
  refused, acquire_global, acquire_route, drop_permit, find,
}

module _ (a : SemaphoreApi) where
  -- The limiter, the routes of the tasks that hold the global permit and wait for the other, and the
  -- permits of the requests that run.
  pub record System : Type 0 where
    pub lim : ConcurrencyLimiter a
    pub waiting : List Str
    pub running : List ConcurrencyPermit

  -- No task has come yet.
  abbrev pub idle : ConcurrencyLimiter a → System
  idle lim = record { lim = lim; waiting = []; running = [] }

  -- One step of one task.
  pub data Moves (json : ErrorJson) : System → System → Type 0 where
    arrives :
        (lim lim' : ConcurrencyLimiter a) (w : Wait) (id : Str) (waiting : List Str)
        (running : List ConcurrencyPermit) (u : Unit)
        → acquire_global a json lim w ≡ (passed u, lim')
        → Moves json
            (record { lim = lim; waiting = waiting; running = running })
            (record { lim = lim'; waiting = id ∷ waiting; running = running })
    turned_away :
        (lim lim' : ConcurrencyLimiter a) (w : Wait) (waiting : List Str)
        (running : List ConcurrencyPermit) (r : Response)
        → acquire_global a json lim w ≡ (refused r, lim')
        → Moves json
            (record { lim = lim; waiting = waiting; running = running })
            (record { lim = lim'; waiting = waiting; running = running })
    enters :
        (lim lim' : ConcurrencyLimiter a) (w : Wait) (id : Str) (before after : List Str)
        (running : List ConcurrencyPermit) (p : ConcurrencyPermit)
        → acquire_route a json lim id w ≡ (passed p, lim')
        → Moves json
            (record { lim = lim; waiting = before ++ (id ∷ after); running = running })
            (record { lim = lim'; waiting = before ++ after; running = p ∷ running })
    gives_up :
        (lim lim' : ConcurrencyLimiter a) (w : Wait) (id : Str) (before after : List Str)
        (running : List ConcurrencyPermit) (r : Response)
        → acquire_route a json lim id w ≡ (refused r, lim')
        → Moves json
            (record { lim = lim; waiting = before ++ (id ∷ after); running = running })
            (record { lim = lim'; waiting = before ++ after; running = running })
    leaves :
        (lim : ConcurrencyLimiter a) (waiting : List Str) (p : ConcurrencyPermit)
        (before after : List ConcurrencyPermit)
        → Moves json
            (record { lim = lim; waiting = waiting; running = before ++ (p ∷ after) })
            (record { lim = drop_permit a p lim; waiting = waiting; running = before ++ after })

  pub data Reaches (json : ErrorJson) (start : System) : System → Type 0 where
    here : Reaches json start start
    step :
        {mid end_ : System} → Reaches json start mid → Moves json mid end_ → Reaches json start end_

-- A request that holds a permit of the route.
abbrev pub is_of : Str → Option Str → Bool
unfolding str_eq
is_of id none = false
is_of id (some k) = str_eq k id

abbrev pub one_if : Bool → ℕ
one_if true = 1
one_if false = 0

-- How many of the running requests hold a permit of the route.
unfoldable pub held_by : Str → List ConcurrencyPermit → ℕ
unfolding is_of
held_by id [] = 0
held_by id (p ∷ ps) = one_if (is_of id p.route) + held_by id ps

module _ (a : SemaphoreApi) (laws : SemaphoreLaws a) where
  -- The free permits of each route's semaphore and those that are held add up to its capacity.
  abbrev pub RoutesAccounted :
      List (Str × a.Semaphore) → List (Str × a.Semaphore) → List ConcurrencyPermit → Type 0
  RoutesAccounted first routes running =
      (id : Str) (sem : a.Semaphore)
      → find routes id ≡ some sem
      → (sem_first : a.Semaphore) × (find first id ≡ some sem_first)
        × (laws.available sem + held_by id running ≡ laws.available sem_first)

  -- No permit is lost and none is made up: those that are free and those that are held add up to the
  -- capacities of the limiter `first`.
  pub record Accounted (first : ConcurrencyLimiter a) (s : System a) : Type 0 where
    pub global :
        laws.available s.lim.global + (length s.waiting + length s.running)
        ≡ laws.available first.global
    pub route : RoutesAccounted first.routes s.lim.routes s.running
