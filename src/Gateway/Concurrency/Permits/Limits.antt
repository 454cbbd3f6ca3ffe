-- ===== src/Gateway/Concurrency/Permits/Limits.antt =====
-- crates/gateway-core/src/concurrency.rs: the limits, by induction on the steps of the tasks.
use stateform.Prelude.{
  ℕ, ◌+◌, ◌<◌, ◌≡◌, refl, sym, ap, subst, ◌∙◌, false, Option, none, some, List, [], ◌∷◌, ◌++◌, inl,
  inr, Bool-cases, arith,
}
use stateform.Prelude.Text.{Str, str_eq, str_eq_iff, str_eq_self}
use stateform.Gateway.Response.{ErrorJson}
use stateform.Gateway.Concurrency.{
  SemaphoreApi, SemaphoreLaws, ConcurrencyLimiter, ConcurrencyPermit, passed, in_time, permit,
  take_or, with_semaphore, on_route, acquire_owned, on_global, acquire_global, acquire_route,
  drop_permit, drop_fields, give_route, find,
}
use stateform.Gateway.Concurrency.Permits.{
  System, idle, Moves, Reaches, is_of, one_if, held_by, RoutesAccounted, Accounted,
}
use stateform.Gateway.Concurrency.Permits.Steps.{
  length-between, held_by-between, RoutesAccounted-insert, acquire_owned-permit, on_global-passed,
  on_global-refused, Entered, acquire_route-Entered, acquire_route-refused,
}

module _ (a : SemaphoreApi) (laws : SemaphoreLaws a) (first : ConcurrencyLimiter a) where
  -- The permits that are free and held, of the global semaphore.
  abbrev Global : a.Semaphore → ℕ → ℕ → Type 0
  Global sem waiting running =
      laws.available sem + (waiting + running) ≡ laws.available first.global

  -- A permit of the route counts once, and one of another route not at all.
  counts_own : (id : Str) (o : Option Str) → o ≡ some id → one_if (is_of id o) ≡ 1
  unfolding is_of
  counts_own id o e = ap (λ r. one_if (is_of id r)) e ∙ ap one_if (str_eq_self id)

  counts_other :
      (id q : Str) (o : Option Str) → o ≡ some id → str_eq id q ≡ false → one_if (is_of q o) ≡ 0
  unfolding is_of
  counts_other id q o e differs = ap (λ r. one_if (is_of q r)) e ∙ ap one_if differs

  counts_none : (q : Str) (o : Option Str) → o ≡ none → one_if (is_of q o) ≡ 0
  unfolding is_of
  counts_none q o e = ap (λ r. one_if (is_of q r)) e

  RoutesAccounted-same :
      (routes : List (Str × a.Semaphore)) (running running' : List ConcurrencyPermit)
      → ((q : Str) (sem : a.Semaphore)
          → find routes q ≡ some sem
          → held_by q running' ≡ held_by q running)
      → RoutesAccounted a laws first.routes routes running
      → RoutesAccounted a laws first.routes routes running'
  RoutesAccounted-same routes running running' same held q sem found =
      let (sf, in_first, sum) = held q sem found in
      (sf, in_first, ap (λ n. laws.available sem + n) (same q sem found) ∙ sum)

  Entered-routes :
      (lim : ConcurrencyLimiter a) (id : Str) (p : ConcurrencyPermit) (lim' : ConcurrencyLimiter a)
      (running : List ConcurrencyPermit)
      → Entered a lim id p lim'
      → RoutesAccounted a laws first.routes lim.routes running
      → RoutesAccounted a laws first.routes lim'.routes (p ∷ running)
  unfolding held_by
  Entered-routes lim id _ _ running Entered.unlimited held =
      RoutesAccounted-same lim.routes running (record { route = none } ∷ running)
        (λ q sem found. omega (arith, counts_none q none refl)) held
  Entered-routes lim id _ _ running (Entered.limited sem sem' there taken) held =
      RoutesAccounted-insert a laws first.routes lim.routes running
        (record { route = some id } ∷ running) id sem sem' there
        (omega (arith, laws.take_some sem sem' taken, counts_own id (some id) refl))
        (λ q differs. omega (arith, counts_other id q (some id) refl differs)) held

  pub Entered-global :
      (lim : ConcurrencyLimiter a) (id : Str) (p : ConcurrencyPermit) (lim' : ConcurrencyLimiter a)
      → Entered a lim id p lim'
      → lim'.global ≡ lim.global
  Entered-global lim id _ _ Entered.unlimited = refl
  Entered-global lim id _ _ (Entered.limited sem sem' there taken) = refl

  drop-routes :
      (lim : ConcurrencyLimiter a) (p : ConcurrencyPermit) (before after : List ConcurrencyPermit)
      → RoutesAccounted a laws first.routes lim.routes (before ++ (p ∷ after))
      → RoutesAccounted a laws first.routes (drop_permit a p lim).routes (before ++ after)
  unfolding drop_permit drop_fields
  drop-routes lim p before after held = go p.route refl
    where
      with_route :
          (id : Str)
          → p.route ≡ some id
          → (o : Option a.Semaphore) → find lim.routes id ≡ o
          → RoutesAccounted a laws first.routes (give_route a id o lim.routes) (before ++ after)
      with_route id e none gone =
          RoutesAccounted-same lim.routes (before ++ (p ∷ after)) (before ++ after)
            (λ q sem found. elim (Bool-cases (str_eq id q)) [
              | inr differs ↦
                  omega
                    (arith, held_by-between q p before after, counts_other id q p.route e differs)
              | inl hit ↦
                  let missing =
                    ap (λ k. find lim.routes k) (sym ((str_eq_iff id q).0 hit)) ∙ gone in
                  absurd (none-some (sym missing ∙ found))
            ])
            held
        where
          none-some : {sem : a.Semaphore} → ◌≡◌ {A = Option a.Semaphore} none (some sem) → ⊥
          none-some h = cc
      with_route id e (some sem) there =
          RoutesAccounted-insert a laws first.routes lim.routes (before ++ (p ∷ after))
            (before ++ after) id sem (a.give sem) there
            (omega (
              arith,
              laws.available_give sem,
              held_by-between id p before after,
              counts_own id p.route e,
            ))
            (λ q differs.
              omega (arith, held_by-between q p before after, counts_other id q p.route e differs))
            held

      go :
          (o : Option Str)
          → p.route ≡ o
          → RoutesAccounted a laws first.routes (drop_fields a o lim).routes (before ++ after)
      go none e =
          RoutesAccounted-same lim.routes (before ++ (p ∷ after)) (before ++ after)
            (λ q sem found.
              omega (arith, held_by-between q p before after, counts_none q p.route e))
            held
      go (some id) e = with_route id e (find lim.routes id) refl

  pub drop-global :
      (lim : ConcurrencyLimiter a) (p : ConcurrencyPermit)
      → (drop_permit a p lim).global ≡ a.give lim.global
  unfolding drop_permit drop_fields
  drop-global lim p = go p.route
    where
      go : (o : Option Str) → (drop_fields a o lim).global ≡ a.give lim.global
      go none = refl
      go (some id) = refl

  Moves-Accounted :
      (json : ErrorJson) (s t : System a)
      → Moves a json s t
      → Accounted a laws first s
      → Accounted a laws first t
  unfolding acquire_global on_global
  Moves-Accounted json _ _ (Moves.arrives lim lim' w id waiting running u e) held =
      let (sem, got, after) = on_global-passed a json lim (acquire_owned a w lim.global) e in
      let taken = laws.take_some lim.global sem (acquire_owned-permit a w lim.global sem got) in
      subst
        (λ l.
          Accounted a laws first (record { lim = l; waiting = id ∷ waiting; running = running }))
        after (record { global = omega (arith, taken, held.global); route = held.route })
  Moves-Accounted json _ _ (Moves.turned_away lim lim' w waiting running r e) held =
      subst (λ l. Accounted a laws first (record { lim = l; waiting = waiting; running = running }))
        (on_global-refused a json lim (acquire_owned a w lim.global) e) held
  Moves-Accounted json _ _ (Moves.enters lim lim' w id before after running p e) held =
      let entered = acquire_route-Entered a json lim id w e in
      record {
        global = omega (
          arith,
          ap laws.available (Entered-global lim id p lim' entered),
          held.global,
          length-between id before after,
        );
        route = Entered-routes lim id p lim' running entered held.route;
      }
  Moves-Accounted json _ _ (Moves.gives_up lim lim' w id before after running r e) held =
      subst
        (λ l.
          Accounted a laws first (record { lim = l; waiting = before ++ after; running = running }))
        (acquire_route-refused a json lim id w e)
        (record {
          global =
              omega (
                arith,
                laws.available_give lim.global,
                held.global,
                length-between id before after,
              );
          route = held.route;
        })
  Moves-Accounted json _ _ (Moves.leaves lim waiting p before after) held = record {
    global = omega (
      arith,
      ap laws.available (drop-global lim p),
      laws.available_give lim.global,
      held.global,
      length-between p before after,
    );
    route = drop-routes lim p before after held.route;
  }

module _ (a : SemaphoreApi) (laws : SemaphoreLaws a) where
  idle-Accounted : (lim : ConcurrencyLimiter a) → Accounted a laws lim (idle a lim)
  unfolding held_by
  idle-Accounted lim = record {
    global = omega arith;
    route = λ id sem found. (sem, found, omega arith);
  }

  -- Whatever the tasks do, from a limiter that none has used.
  pub Reaches-Accounted :
      (json : ErrorJson) (lim : ConcurrencyLimiter a) (s : System a)
      → Reaches a json (idle a lim) s
      → Accounted a laws lim s
  Reaches-Accounted json lim _ Reaches.here = idle-Accounted lim
  Reaches-Accounted json lim s (Reaches.step {mid} before move) =
      Moves-Accounted a laws lim json mid s move (Reaches-Accounted json lim mid before)

  -- In every state that the tasks can reach from an unused limiter, if no request runs and the
  -- route's limit, where it has one, is not 0, a task that waits for the route's permit in time
  -- gets it: the tasks that wait do not block each other.
  pub Reaches-enters :
      (json : ErrorJson) (lim : ConcurrencyLimiter a) (s : System a) (id : Str)
      → Reaches a json (idle a lim) s
      → ((sem : a.Semaphore) → find lim.routes id ≡ some sem → 0 < laws.available sem)
      → s.running ≡ []
      → (p : ConcurrencyPermit) × (lim' : ConcurrencyLimiter a) × (acquire_route a json s.lim id
            in_time
          ≡ (passed p, lim'))
  unfolding acquire_route with_semaphore acquire_owned on_route held_by
  Reaches-enters json lim s id way positive none_runs = go (find s.lim.routes id) refl
    where
      taken :
          (sem : a.Semaphore) (o : Option a.Semaphore)
          → a.take sem ≡ o
          → 0 < laws.available sem
          → (t : a.Semaphore) × (take_or a o ≡ permit t)
      taken sem none e h = absurd (omega (arith, laws.take_none sem e))
      taken sem (some t) e h = (t, refl)

      go :
          (o : Option a.Semaphore)
          → find s.lim.routes id ≡ o
          → (p : ConcurrencyPermit) × (lim' : ConcurrencyLimiter a) × (with_semaphore a json s.lim
                id in_time o
              ≡ (passed p, lim'))
      go none e = (record { route = none }, s.lim, refl)
      go (some sem) e =
          let (limit, there, sum) = (Reaches-Accounted json lim s way).route id sem e in
          let idle_sum : laws.available sem ≡ laws.available limit =
            omega (arith, sum, ap (λ r. held_by id r) none_runs) in
          let (t, got) =
            taken sem (a.take sem) refl (omega (arith, positive limit there, idle_sum)) in
          (record { route = some id }, _, ap (λ x. on_route a json s.lim id x) got)
