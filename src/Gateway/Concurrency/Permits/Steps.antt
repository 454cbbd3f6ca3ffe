-- ===== src/Gateway/Concurrency/Permits/Steps.antt =====
-- crates/gateway-core/src/concurrency.rs: what each step of `acquire` changes.
use stateform.Prelude.{
  suc, ◌+◌, ◌≡◌, refl, sym, ap, subst, ◌∙◌, false, Option, none, some, List, [], ◌∷◌, ◌++◌, length,
  inl, inr, Bool-cases, arith, if◌then◌else◌,
}
use stateform.Prelude.Text.{Str, str_eq, str_eq_iff, str_eq_self}
use stateform.Gateway.Response.{Response, ErrorJson}
use stateform.Gateway.Concurrency.{
  SemaphoreApi, SemaphoreLaws, ConcurrencyLimiter, ConcurrencyPermit, Wait, in_time, too_late,
  closed, passed, refused, Waited, permit, is_closed, timed_out, take_or, acquire_owned, on_global,
  on_route, with_semaphore, acquire_route, insert, find,
}
use stateform.Gateway.Concurrency.Permits.{is_of, one_if, held_by, RoutesAccounted}

module _ {V : Type 0} where
  pub find-insert_same : (k : Str) (v : V) (l : List (Str × V)) → find (insert k v l) k ≡ some v
  unfolding find insert
  find-insert_same k v [] = rw (str_eq_self k) refl
  find-insert_same k v ((n, w) ∷ l) = elim (Bool-cases (str_eq n k)) [
    | inl hit ↦
        ap (λ b. find (if b then (n, v) ∷ l else (n, w) ∷ insert k v l) k) hit
        ∙ ap (λ b. if b then some v else find l k) hit
    | inr miss ↦
        ap (λ b. find (if b then (n, v) ∷ l else (n, w) ∷ insert k v l) k) miss
        ∙ ap (λ b. if b then some w else find (insert k v l) k) miss
        ∙ find-insert_same k v l
  ]

  pub find-insert_other :
      (k q : Str) (v : V) (l : List (Str × V))
      → str_eq k q ≡ false
      → find (insert k v l) q ≡ find l q
  unfolding find insert
  find-insert_other k q v [] differs = ap (λ b. if b then some v else none) differs
  find-insert_other k q v ((n, w) ∷ l) differs = elim (Bool-cases (str_eq n k)) [
    | inl hit ↦
        let other = ap (λ x. str_eq x q) ((str_eq_iff n k).0 hit) ∙ differs in
        ap (λ b. find (if b then (n, v) ∷ l else (n, w) ∷ insert k v l) q) hit
        ∙ ap (λ b. if b then some v else find l q) other
        ∙ sym (ap (λ b. if b then some w else find l q) other)
    | inr miss ↦
        ap (λ b. find (if b then (n, v) ∷ l else (n, w) ∷ insert k v l) q) miss
        ∙ ap (λ o. if str_eq n q then some w else o) (find-insert_other k q v l differs)
  ]

pub length-between :
    {A : Type 0} (x : A) (xs ys : List A) → length (xs ++ (x ∷ ys)) ≡ suc (length (xs ++ ys))
length-between x [] ys = refl
length-between x (y ∷ xs) ys = ap suc (length-between x xs ys)

pub held_by-between :
    (id : Str) (p : ConcurrencyPermit) (xs ys : List ConcurrencyPermit)
    → held_by id (xs ++ (p ∷ ys)) ≡ one_if (is_of id p.route) + held_by id (xs ++ ys)
unfolding held_by
held_by-between id p [] ys = refl
held_by-between id p (q ∷ xs) ys = omega (arith, held_by-between id p xs ys)

module _ (a : SemaphoreApi) (laws : SemaphoreLaws a) where
  -- The semaphore of one route is changed, with the requests that hold a permit of it.
  pub RoutesAccounted-insert :
      (first routes : List (Str × a.Semaphore)) (running running' : List ConcurrencyPermit)
      (id : Str) (sem sem' : a.Semaphore)
      → find routes id ≡ some sem
      → laws.available sem' + held_by id running' ≡ laws.available sem + held_by id running
      → ((q : Str) → str_eq id q ≡ false → held_by q running' ≡ held_by q running)
      → RoutesAccounted a laws first routes running
      → RoutesAccounted a laws first (insert id sem' routes) running'
  RoutesAccounted-insert first routes running running' id sem sem' there same others held q s
        found =
      elim (Bool-cases (str_eq id q)) [
        | inr differs ↦
            let (sf, in_first, sum) =
              held q s (sym (find-insert_other id q sem' routes differs) ∙ found) in
            (sf, in_first, ap (λ n. laws.available s + n) (others q differs) ∙ sum)
        | inl hit ↦
            let (sf, in_first, sum) = held id sem there in
            here ((str_eq_iff id q).0 hit) sf in_first (same ∙ sum)
      ]
    where
      here :
          id ≡ q
          → (sf : a.Semaphore) → find first id ≡ some sf
          → laws.available sem' + held_by id running' ≡ laws.available sf
          → (sem_first : a.Semaphore) × (find first q ≡ some sem_first)
            × (laws.available s + held_by q running' ≡ laws.available sem_first)
      here e sf in_first sum =
          let now : some sem' ≡ some s =
            sym (find-insert_same id sem' routes)
            ∙ ap (λ k. find (insert id sem' routes) k) e
            ∙ found in
          let is_sem : sem' ≡ s = cc in
          (
            sf,
            sym (ap (λ k. find first k) e) ∙ in_first,
            sym (ap (λ t. laws.available t + held_by q running') is_sem ∙ refl)
                ∙ ap (λ k. laws.available sem' + held_by k running') (sym e)
                ∙ sum,
          )

module _ (a : SemaphoreApi) where
  take_or-permit : (o : Option a.Semaphore) (t : a.Semaphore) → take_or a o ≡ permit t → o ≡ some t
  take_or-permit none t e = absurd (cc)
  take_or-permit (some s) t e = cc

  pub acquire_owned-permit :
      (w : Wait) (s t : a.Semaphore) → acquire_owned a w s ≡ permit t → a.take s ≡ some t
  unfolding acquire_owned
  acquire_owned-permit in_time s t e = take_or-permit (a.take s) t e
  acquire_owned-permit too_late s t e = absurd (cc)
  acquire_owned-permit closed s t e = absurd (cc)

  pub on_global-passed :
      (json : ErrorJson) (lim : ConcurrencyLimiter a) (x : Waited a) {u : Unit}
      {lim' : ConcurrencyLimiter a}
      → on_global a json lim x ≡ (passed u, lim')
      → (s : a.Semaphore) × (x ≡ permit s) × (record lim { global = s } ≡ lim')
  unfolding on_global
  on_global-passed json lim (permit s) e = (s, refl, ap (λ r. r.1) e)
  on_global-passed json lim is_closed e = let no = ap (λ r. r.0) e in absurd (cc)
  on_global-passed json lim timed_out e = let no = ap (λ r. r.0) e in absurd (cc)

  pub on_global-refused :
      (json : ErrorJson) (lim : ConcurrencyLimiter a) (x : Waited a) {r : Response}
      {lim' : ConcurrencyLimiter a}
      → on_global a json lim x ≡ (refused r, lim')
      → lim ≡ lim'
  unfolding on_global
  on_global-refused json lim (permit s) e = let no = ap (λ r. r.0) e in absurd (cc)
  on_global-refused json lim is_closed e = ap (λ r. r.1) e
  on_global-refused json lim timed_out e = ap (λ r. r.1) e

  -- A request enters with the permit of its route, or on a route without a limit.
  pub data Entered (lim : ConcurrencyLimiter a) (id : Str)
      : ConcurrencyPermit → ConcurrencyLimiter a → Type 0 where
    unlimited : Entered lim id (record { route = none }) lim
    limited :
        (sem sem' : a.Semaphore)
        → find lim.routes id ≡ some sem
        → a.take sem ≡ some sem'
        → Entered lim id
            (record { route = some id })
            (record lim { routes = insert id sem' lim.routes })

  on_route-passed :
      (json : ErrorJson) (lim : ConcurrencyLimiter a) (id : Str) (w : Wait) (sem : a.Semaphore)
      (x : Waited a) {p : ConcurrencyPermit} {lim' : ConcurrencyLimiter a}
      → find lim.routes id ≡ some sem
      → acquire_owned a w sem ≡ x
      → on_route a json lim id x ≡ (passed p, lim')
      → Entered lim id p lim'
  unfolding on_route
  on_route-passed json lim id w sem (permit s) {p} {lim'} there got e =
      let is_permit : record { route = some id } ≡ p = cc in
      subst (λ q. Entered lim id q lim') is_permit
        (subst (λ l. Entered lim id (record { route = some id }) l) (ap (λ r. r.1) e)
          (Entered.limited sem s there (acquire_owned-permit w sem s got)))
  on_route-passed json lim id w sem is_closed there got e = let no = ap (λ r. r.0) e in absurd (cc)
  on_route-passed json lim id w sem timed_out there got e = let no = ap (λ r. r.0) e in absurd (cc)

  pub acquire_route-Entered :
      (json : ErrorJson) (lim : ConcurrencyLimiter a) (id : Str) (w : Wait) {p : ConcurrencyPermit}
      {lim' : ConcurrencyLimiter a}
      → acquire_route a json lim id w ≡ (passed p, lim')
      → Entered lim id p lim'
  unfolding acquire_route with_semaphore
  acquire_route-Entered json lim id w {p} {lim'} e = go (find lim.routes id) refl e
    where
      go :
          (o : Option a.Semaphore)
          → find lim.routes id ≡ o
          → with_semaphore a json lim id w o ≡ (passed p, lim')
          → Entered lim id p lim'
      go none there e =
          let is_permit : record { route = none } ≡ p = cc in
          subst (λ q. Entered lim id q lim') is_permit
            (subst (λ l. Entered lim id (record { route = none }) l) (ap (λ r. r.1) e)
              Entered.unlimited)
      go (some sem) there e = on_route-passed json lim id w sem _ there refl e

  pub acquire_route-refused :
      (json : ErrorJson) (lim : ConcurrencyLimiter a) (id : Str) (w : Wait) {r : Response}
      {lim' : ConcurrencyLimiter a}
      → acquire_route a json lim id w ≡ (refused r, lim')
      → record lim { global = a.give lim.global } ≡ lim'
  unfolding acquire_route with_semaphore on_route
  acquire_route-refused json lim id w {r} {lim'} e = go (find lim.routes id) e
    where
      failed :
          (x : Waited a)
          → on_route a json lim id x ≡ (refused r, lim')
          → record lim { global = a.give lim.global } ≡ lim'
      failed (permit s) e = let no = ap (λ r. r.0) e in absurd (cc)
      failed is_closed e = ap (λ r. r.1) e
      failed timed_out e = ap (λ r. r.1) e

      go :
          (o : Option a.Semaphore)
          → with_semaphore a json lim id w o ≡ (refused r, lim')
          → record lim { global = a.give lim.global } ≡ lim'
      go none e = let no = ap (λ r. r.0) e in absurd (cc)
      go (some sem) e = failed (acquire_owned a w sem) e
