-- ===== src/Gateway/Concurrency/Permits/Routes.antt =====
-- crates/gateway-core/src/concurrency.rs: the routes that have a semaphore, whatever the tasks do.
use stateform.Prelude.{◌≡◌, sym, ap, subst, ◌∙◌, Option, none, some, inl, inr, Bool-cases}
use stateform.Prelude.Text.{Str, str_eq, str_eq_iff}
use stateform.Gateway.Response.{ErrorJson}
use stateform.Gateway.Concurrency.{
  SemaphoreApi, ConcurrencyLimiter, ConcurrencyPermit, acquire_owned, acquire_global, drop_permit,
  drop_fields, give_route, insert, find,
}
use stateform.Gateway.Concurrency.Permits.{System, Moves, Reaches}
use stateform.Gateway.Concurrency.Permits.Steps.{
  find-insert_same, find-insert_other, on_global-passed, on_global-refused, Entered,
  acquire_route-Entered, acquire_route-refused,
}

module _ (a : SemaphoreApi) where
  -- The route has a semaphore.
  abbrev pub Limited : Str → ConcurrencyLimiter a → Type 0
  Limited q lim = (sem : a.Semaphore) × (find lim.routes q ≡ some sem)

  insert-Limited :
      (id q : Str) (new_sem : a.Semaphore) (lim : ConcurrencyLimiter a)
      → Limited q lim
      → Limited q (record lim { routes = insert id new_sem lim.routes })
  insert-Limited id q new_sem lim (sem, found) = elim (Bool-cases (str_eq id q)) [
    | inl hit ↦ (
      new_sem,
      ap (λ k. find (insert id new_sem lim.routes) k) (sym ((str_eq_iff id q).0 hit))
          ∙ find-insert_same id new_sem lim.routes,
    )
    | inr differs ↦ (sem, find-insert_other id q new_sem lim.routes differs ∙ found)
  ]

  Entered-Limited :
      (q id : Str) (lim : ConcurrencyLimiter a) (p : ConcurrencyPermit)
      (lim' : ConcurrencyLimiter a)
      → Entered a lim id p lim'
      → Limited q lim
      → Limited q lim'
  Entered-Limited q id lim _ _ Entered.unlimited has = has
  Entered-Limited q id lim _ _ (Entered.limited sem sem' there taken) has =
      insert-Limited id q sem' lim has

  drop-Limited :
      (q : Str) (p : ConcurrencyPermit) (lim : ConcurrencyLimiter a)
      → Limited q lim
      → Limited q (drop_permit a p lim)
  unfolding drop_permit drop_fields
  drop-Limited q p lim has = go p.route
    where
      given :
          (id : Str) (o : Option a.Semaphore)
          → Limited q (record lim { routes = give_route a id o lim.routes })
      given id none = has
      given id (some sem) = insert-Limited id q (a.give sem) lim has

      go : (o : Option Str) → Limited q (drop_fields a o lim)
      go none = has
      go (some id) = given id (find lim.routes id)

  Moves-Limited :
      (q : Str) (json : ErrorJson) (s t : System a)
      → Moves a json s t
      → Limited q s.lim
      → Limited q t.lim
  unfolding acquire_global
  Moves-Limited q json _ _ (Moves.arrives lim lim' w id waiting running u e) has =
      let (sem, got, after) = on_global-passed a json lim (acquire_owned a w lim.global) e in
      subst (λ l. Limited q l) after has
  Moves-Limited q json _ _ (Moves.turned_away lim lim' w waiting running r e) has =
      subst (λ l. Limited q l) (on_global-refused a json lim (acquire_owned a w lim.global) e) has
  Moves-Limited q json _ _ (Moves.enters lim lim' w id before after running p e) has =
      Entered-Limited q id lim p lim' (acquire_route-Entered a json lim id w e) has
  Moves-Limited q json _ _ (Moves.gives_up lim lim' w id before after running r e) has =
      subst (λ l. Limited q l) (acquire_route-refused a json lim id w e) has
  Moves-Limited q json _ _ (Moves.leaves lim waiting p before after) has = drop-Limited q p lim has

  -- A route that has a semaphore keeps one.
  pub Reaches-Limited :
      (q : Str) (json : ErrorJson) (start s : System a)
      → Reaches a json start s
      → Limited q start.lim
      → Limited q s.lim
  Reaches-Limited q json start _ Reaches.here has = has
  Reaches-Limited q json start s (Reaches.step {mid} before move) has =
      Moves-Limited q json mid s move (Reaches-Limited q json start mid before has)
