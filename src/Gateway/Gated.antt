-- ===== src/Gateway/Gated.antt =====
-- crates/gateway-core/src/pipeline.rs with concurrency.rs: the interface of the pipeline with the
-- modelled limiter as its gate. The other stages are those of `rest`, and how the two waits of a
-- request end is read from their state.
use stateform.Prelude.{ℕ, suc, ◌+◌, ◌≡◌, refl, ap, ◌∙◌, arith}
use stateform.Prelude.Text.{Str}
use stateform.Http.{HeaderApi}
use stateform.Gateway.Concurrency.{
  SemaphoreApi, SemaphoreLaws, ConcurrencyLimiter, ConcurrencyPermit, Wait, Step, passed, refused,
  acquire_owned, acquire_global, acquire_route, then_route, acquire, drop_permit,
}
use stateform.Gateway.Concurrency.Permits.Steps.{
  acquire_owned-permit, on_global-passed, on_global-refused, acquire_route-Entered,
  acquire_route-refused,
}
use stateform.Gateway.Response.{ErrorJson}
use stateform.Gateway.Concurrency.Permits.Limits.{Entered-global, drop-global}
use stateform.Gateway.Pipeline.{Acquired, permit, busy, Stages}
use stateform.Gateway.Pipeline.Effects.{taken, PermitLaws}

module _ (a : SemaphoreApi) {R : Type 0} where
  abbrev pub answer :
      Step a ConcurrencyPermit × ConcurrencyLimiter a
      → R
      → Acquired ConcurrencyPermit × (ConcurrencyLimiter a × R)
  answer (passed p, lim) r = (permit p, (lim, r))
  answer (refused resp, lim) r = (busy resp, (lim, r))

module _ (a : SemaphoreApi) {h : HeaderApi} {Value : Type 0} (rest : Stages h Value)
    (waits : rest.W → Wait × Wait) where
  abbrev pub gated : Stages h Value
  gated = record {
    W = ConcurrencyLimiter a × rest.W;
    Extensions = rest.Extensions;
    Permit = ConcurrencyPermit;
    match_request = λ path method m w. rest.match_request path method m w.1;
    acquire = λ id w. answer a (acquire a rest.json w.0 id (waits w.1).0 (waits w.1).1) w.1;
    drop_permit = λ p w. (drop_permit a p w.0, w.1);
    run_auth = λ cfg m x w. let r = rest.run_auth cfg m x w.1 in (r.0, (w.0, r.1));
    check = λ cfg id ctx m w. let r = rest.check cfg id ctx m w.1 in (r.0, (w.0, r.1));
    lookup = λ cfg id method path q m w.
        let r = rest.lookup cfg id method path q m w.1 in (r.0, (w.0, r.1));
    store = λ cfg id method path q status m body n w.
        (w.0, rest.store cfg id method path q status m body n w.1);
    get = λ name w. rest.get name w.1;
    send = λ name r k w. let o = rest.send name r k w.1 in (o.0, (w.0, o.1));
    auth_text = rest.auth_text;
    core_text = rest.core_text;
    json = rest.json;
    now = λ w. rest.now w.1;
    new_uuid = λ w. rest.new_uuid w.1;
  }

module _ (a : SemaphoreApi) (laws : SemaphoreLaws a) (json : ErrorJson) where
  -- The permits of the global semaphore that are free.
  abbrev pub free : ConcurrencyLimiter a → ℕ
  free lim = laws.available lim.global

  -- The global permits that a request holds once a step has ended.
  abbrev holds : {A : Type 0} → Step a A → ℕ
  holds (passed x) = 1
  holds (refused r) = 0

  global-free :
      (w : Wait) (lim lim' : ConcurrencyLimiter a) (r : Step a Unit)
      → acquire_global a json lim w ≡ (r, lim')
      → holds r + free lim' ≡ free lim
  unfolding acquire_global
  global-free w lim lim' (passed u) e =
      let (sem, got, after) = on_global-passed a json lim (acquire_owned a w lim.global) e in
      omega (
        arith,
        laws.take_some lim.global sem (acquire_owned-permit a w lim.global sem got),
        ap free after,
      )
  global-free w lim lim' (refused r) e =
      omega (arith, ap free (on_global-refused a json lim (acquire_owned a w lim.global) e))

  route-free :
      (id : Str) (w : Wait) (lim lim' : ConcurrencyLimiter a) (r : Step a ConcurrencyPermit)
      → acquire_route a json lim id w ≡ (r, lim')
      → holds r + free lim' ≡ suc (free lim)
  route-free id w lim lim' (passed p) e = omega (
    arith,
    ap laws.available
        (Entered-global a laws lim lim id p lim' (acquire_route-Entered a json lim id w e)),
  )
  route-free id w lim lim' (refused r) e =
      omega
        (arith, ap free (acquire_route-refused a json lim id w e), laws.available_give lim.global)

  then_route-free :
      (id : Str) (w : Wait) (r : Step a Unit) (lim : ConcurrencyLimiter a)
      → holds (then_route a json id w (r, lim)).0 + free (then_route a json id w (r, lim)).1
        ≡ holds r + free lim
  unfolding then_route
  then_route-free id w (passed u) lim =
      let second = acquire_route a json lim id w in
      omega (arith, route-free id w lim second.1 second.0 refl)
  then_route-free id w (refused r) lim = refl

  acquire-free :
      (lim : ConcurrencyLimiter a) (id : Str) (w v : Wait)
      → holds (acquire a json lim id w v).0 + free (acquire a json lim id w v).1 ≡ free lim
  unfolding acquire
  acquire-free lim id w v =
      let first = acquire_global a json lim w in
      then_route-free id v first.0 first.1 ∙ global-free w lim first.1 first.0 refl

  drop-free :
      (p : ConcurrencyPermit) (lim : ConcurrencyLimiter a)
      → free (drop_permit a p lim) ≡ suc (free lim)
  drop-free p lim =
      ap laws.available (drop-global a laws lim lim p) ∙ laws.available_give lim.global

module _ (a : SemaphoreApi) (laws : SemaphoreLaws a) {h : HeaderApi} {Value : Type 0}
    (rest : Stages h Value) (waits : rest.W → Wait × Wait) where
  answered :
      (r : Step a ConcurrencyPermit) (lim : ConcurrencyLimiter a) (w : rest.W)
      → taken (gated a rest waits) (answer a (r, lim) w).0
          + free a laws rest.json (answer a (r, lim) w).1.0
        ≡ holds a laws rest.json r + free a laws rest.json lim
  answered (passed p) lim w = refl
  answered (refused r) lim w = refl

  -- The modelled limiter keeps the law of a gate.
  pub gated-PermitLaws : PermitLaws (gated a rest waits) (λ w. free a laws rest.json w.0)
  gated-PermitLaws = record {
    others = record {
      by_auth = λ cfg m x w. refl;
      by_check = λ cfg id ctx m w. refl;
      by_lookup = λ cfg id method path q m w. refl;
      by_store = λ cfg id method path q status m body n w. refl;
    };
    by_send = λ name r k w. refl;
    by_acquire = λ id w.
        let g = acquire a rest.json w.0 id (waits w.1).0 (waits w.1).1 in
        answered g.0 g.1 w.1 ∙ acquire-free a laws rest.json w.0 id (waits w.1).0 (waits w.1).1;
    by_drop = λ p w. drop-free a laws rest.json p w.0;
  }
