-- ===== src/RateLimit/L2Redis/Window.antt =====
-- crates/gateway-ratelimit/src/l2_redis.rs: how many requests the sliding window admits. What the
-- script relies on of Redis's sorted sets is `ZSetLaws`.
use stateform.Prelude.{
  ℕ, ◌+◌, ◌≤◌, ◌<◌, ◌≡◌, refl, ap, ◌∙◌, Bool, true, false, ltb, ltb→lt, List, [], ◌∷◌, arith,
}
use stateform.Prelude.Text.{Str}
use stateform.RateLimit.Float.{FloatApi, OrderLaws}
use stateform.RateLimit.L2Redis.{
  ZSetApi, WindowRun, answer_window, sliding_window_script, outcome_of,
}

abbrev pub one_unless : Bool → ℕ
one_unless true = 0
one_unless false = 1

-- The entries of a set: `zcount` counts those with a score above a bound, `has` looks for a member.
pub record ZSetLaws (f : FloatApi) (z : ZSetApi f) : Type 0 where
  pub empty : z.ZSet
  pub zcount : f.F → z.ZSet → ℕ
  pub has : Str → z.ZSet → Bool
  pub zcount_empty : (c : f.F) → zcount c empty ≡ 0
  pub zcard_rem : (b : f.F) (s : z.ZSet) → z.zcard (z.zremrangebyscore b s) ≡ zcount b s
  pub zcount_rem :
      (b c : f.F) (s : z.ZSet) → f.le b c ≡ true → zcount c (z.zremrangebyscore b s) ≡ zcount c s
  pub zcount_add :
      (score c : f.F) (m : Str) (s : z.ZSet)
      → has m s ≡ false
      → zcount c (z.zadd score m s) ≡ one_unless (f.le score c) + zcount c s

module _ (f : FloatApi) where
  abbrev pub start_of : ℕ → f.F → f.F
  start_of window now = f.sub now (f.of_nat window)

  -- The time of the last call.
  abbrev pub last_time : f.F → List (f.F × Str) → f.F
  last_time now [] = now
  last_time now ((later, req_id) ∷ calls) = last_time later calls

  -- The times that lie above a bound.
  unfoldable pub above : f.F → List f.F → ℕ
  above c [] = 0
  above c (t ∷ times) = one_unless (f.le t c) + above c times

module _ (f : FloatApi) (z : ZSetApi f) (max_requests window : ℕ) where
  abbrev pub note_if : Bool → f.F → List f.F → List f.F
  note_if true now times = now ∷ times
  note_if false now times = times

  unfoldable pub call : f.F × Str → z.ZSet → WindowRun f z
  unfolding sliding_window_script
  call (now, req_id) s = sliding_window_script f z max_requests window now req_id s

  -- The times of the requests that are admitted, the last one first, when the script runs for each of
  -- the calls, on the times before them.
  unfoldable pub admitted : z.ZSet → List f.F → List (f.F × Str) → List f.F
  unfolding call outcome_of
  admitted s times [] = times
  admitted s times ((now, req_id) ∷ calls) =
      admitted (call (now, req_id) s).stored
        (note_if (outcome_of (call (now, req_id) s).reply).allowed now times) calls

module _ (f : FloatApi) (z : ZSetApi f) (zl : ZSetLaws f z) (max_requests window : ℕ) where
  -- No clock goes back, and no request has the id of one that is in the set.
  unfoldable pub Proper : z.ZSet → f.F → List (f.F × Str) → Type 0
  unfolding call
  Proper s last [] = Unit
  Proper s last ((now, req_id) ∷ calls) =
      (f.le last now ≡ true)
      × (zl.has req_id (z.zremrangebyscore (start_of f window now) s) ≡ false)
      × Proper (call f z max_requests window (now, req_id) s).stored now calls

module _ (f : FloatApi) (laws : OrderLaws f) where
  above-antitone :
      (b c : f.F) (times : List f.F) → f.le b c ≡ true → above f c times ≤ above f b times
  unfolding above
  above-antitone b c [] h = omega arith
  above-antitone b c (t ∷ times) h =
      omega (
        arith,
        above-antitone b c times h,
        one (f.le t b) (f.le t c) (λ e. laws.le_trans t b c e h),
      )
    where
      one : (x y : Bool) → (x ≡ true → y ≡ true) → one_unless y ≤ one_unless x
      one true true g = omega arith
      one true false g = absurd (false-true (g refl))
        where
          false-true : false ≡ true → ⊥
          false-true e = cc
      one false y g = low y
        where
          low : (y : Bool) → one_unless y ≤ 1
          low true = omega arith
          low false = omega arith

module _ (f : FloatApi) (z : ZSetApi f) (zl : ZSetLaws f z) (laws : OrderLaws f)
    (max_requests window : ℕ) where
  -- The set counts the admitted times above the start of the window, and those are few enough.
  abbrev Counts : z.ZSet → List f.F → f.F → Type 0
  Counts s times last =
      ((c : f.F) → f.le (start_of f window last) c ≡ true → zl.zcount c s ≡ above f c times)
      × (above f (start_of f window last) times ≤ max_requests)

  answer-Counts :
      (now : f.F) (req_id : Str) (live : z.ZSet) (times : List f.F) (count : ℕ) (b : Bool)
      → ltb count max_requests ≡ b
      → zl.has req_id live ≡ false
      → count ≡ above f (start_of f window now) times
      → ((c : f.F) → f.le (start_of f window now) c ≡ true → zl.zcount c live ≡ above f c times)
      → above f (start_of f window now) times ≤ max_requests
      → Counts
          (answer_window f z max_requests window now req_id live count b).stored
          (note_if f z max_requests window
            (outcome_of
              (answer_window f z max_requests window now req_id live count b).reply).allowed
            now
            times)
          now
  unfolding answer_window outcome_of above
  answer-Counts now req_id live times count true test fresh counted seen low = (
    λ c h. zl.zcount_add now c req_id live fresh ∙ ap (λ n. one_unless (f.le now c) + n) (seen c h),
    room (f.le now (start_of f window now)) (ltb→lt count max_requests test),
  )
    where
      room :
          (x : Bool)
          → count < max_requests
          → one_unless x + above f (start_of f window now) times ≤ max_requests
      room true h = omega arith
      room false h = omega arith
  answer-Counts now req_id live times count false test fresh counted seen low = (seen, low)

  admitted-Counts :
      (s : z.ZSet) (times : List f.F) (last : f.F) (calls : List (f.F × Str))
      → Counts s times last
      → Proper f z zl max_requests window s last calls
      → above f
          (start_of f window (last_time f last calls))
          (admitted f z max_requests window s times calls)
        ≤ max_requests
  unfolding admitted call sliding_window_script Proper outcome_of
  admitted-Counts s times last [] held proper = held.1
  admitted-Counts s times last ((now, req_id) ∷ calls) held (later, fresh, proper) =
      admitted-Counts (call f z max_requests window (now, req_id) s).stored
        (note_if f z max_requests window
          (outcome_of (call f z max_requests window (now, req_id) s).reply).allowed now times)
        now calls
        (answer-Counts now req_id (z.zremrangebyscore (start_of f window now) s) times _ _ refl
          fresh (zl.zcard_rem (start_of f window now) s ∙ held.0 (start_of f window now) further)
          (λ c h.
            zl.zcount_rem (start_of f window now) c s h ∙ held.0 c (laws.le_trans _ _ c further h))
          (omega (
            arith,
            held.1,
            above-antitone f laws (start_of f window last) (start_of f window now) times further,
          )))
        proper
    where
      further : f.le (start_of f window last) (start_of f window now) ≡ true
      further = laws.sub_mono last now (f.of_nat window) later

  -- When the sliding-window script runs for one call after the other on a set that was empty,
  -- the clock does not go back and no request id is one that is in the set, at most
  -- max_requests of the requests that it admitted lie within the window that ends at the last
  -- call.
  pub admitted-bounded :
      (start : f.F) (calls : List (f.F × Str))
      → Proper f z zl max_requests window zl.empty start calls
      → above f
          (start_of f window (last_time f start calls))
          (admitted f z max_requests window zl.empty [] calls)
        ≤ max_requests
  unfolding above
  admitted-bounded start calls proper =
      admitted-Counts zl.empty [] start calls ((λ c h. zl.zcount_empty c), omega arith) proper
