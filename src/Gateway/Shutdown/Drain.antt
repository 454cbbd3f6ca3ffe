-- ===== src/Gateway/Shutdown/Drain.antt =====
-- crates/gateway-core/src/shutdown.rs: the wait ends, and what its end says.
use stateform.Prelude.{
  ℕ, zero, suc, ◌+◌, ◌-◌, ◌*◌, ◌≤◌, ◌<◌, ◌≡◌, refl, sym, ap, subst, ◌∙◌, Bool, true, false, leb,
  ◌==◌, Option, none, some, ◌⊎◌, inl, inr, arith, if◌then◌else◌,
}
use stateform.Gateway.Shutdown.{
  drain_timeout, pause, ShutdownCoordinator, Drained, complete, forced, Rounds, round, end_or,
  drain, max_rounds, shutdown,
}

-- The clock moves by at least a pause from one round to the next.
abbrev pub Paused : ℕ → Rounds → Type 0
Paused start r = (start ≤ r.clock 0) × ((i : ℕ) → r.clock i + pause ≤ r.clock (suc i))

clock-after : (start : ℕ) (r : Rounds) (i : ℕ) → Paused start r → start + i * pause ≤ r.clock i
clock-after start r zero p = omega (arith, p.0)
clock-after start r (suc i) p = omega (arith, clock-after start r i p, p.1 i)

-- What an end says of the round at which it comes.
abbrev pub Ends : ℕ → Rounds → ℕ → Drained → Type 0
Ends start r i complete = r.counter i ≡ 0
Ends start r i (forced left) =
    (start + drain_timeout ≤ r.clock i) × (left ≡ r.remaining i) × (0 < r.counter i)

-- The loop ends at a round, which is the first at which no request is left or the time is up.
abbrev pub Stops : ℕ → Rounds → Drained → Type 0
Stops start r d =
    (i : ℕ) × (i < max_rounds)
    × Ends start r i d
    × ((j : ℕ) → j < i → (0 < r.counter j) × (r.clock j < start + drain_timeout))

round-cases :
    (start : ℕ) (r : Rounds) (i : ℕ)
    → ((d : Drained) × (round start r i ≡ some d) × Ends start r i d)
      ⊎ ((round start r i ≡ none) × (0 < r.counter i) × (r.clock i < start + drain_timeout))
unfolding round
round-cases start r i = go (r.counter i == 0) (leb drain_timeout (r.clock i - start)) refl refl
  where
    result : Bool → Bool → Option Drained
    result b c = if b then some complete else (if c then some (forced (r.remaining i)) else none)

    go :
        (b c : Bool)
        → (r.counter i == 0) ≡ b
        → leb drain_timeout (r.clock i - start) ≡ c
        → ((d : Drained) × (result b c ≡ some d) × Ends start r i d)
          ⊎ ((result b c ≡ none) × (0 < r.counter i) × (r.clock i < start + drain_timeout))
    go true c e h = inl (complete, refl, ground arith)
    go false true e h = inl (forced (r.remaining i), refl, (ground arith, refl, ground arith))
    go false false e h = inr (refl, ground arith, ground arith)

up_to : (j i : ℕ) → j < suc i → (j < i) ⊎ (j ≡ i)
up_to j i h = omega arith

-- Fuel for the rounds up to the one at which the time is up.
drain-Stops :
    (start : ℕ) (r : Rounds) (fuel i : ℕ)
    → Paused start r
    → fuel + i ≡ max_rounds
    → ((j : ℕ) → j < i → (0 < r.counter j) × (r.clock j < start + drain_timeout))
    → (d : Drained) × (drain fuel start r i ≡ some d) × Stops start r d
unfolding drain max_rounds
drain-Stops start r zero i p total before = absurd (
    let last : r.clock 600 < start + drain_timeout = (before 600 (omega (arith, total))).1 in
    omega (arith, last, clock-after start r 600 p))
drain-Stops start r (suc fuel) i p total before = elim (round-cases start r i) [
  | inl (d, ends, why) ↦ (
    d,
    ap (λ o. end_or o (drain fuel start r (suc i))) ends,
    (i, omega (arith, total), why, before),
  )
  | inr (goes_on, busy, early) ↦
      let earlier : (j : ℕ) → j < suc i → (0 < r.counter j) × (r.clock j < start + drain_timeout) =
        λ j h. elim (up_to j i h) [
          | inl less ↦ before j less
          | inr same ↦
              subst (λ k. (0 < r.counter k) × (r.clock k < start + drain_timeout)) (sym same)
                (busy, early)
        ] in
      let (d, ends, stops) = drain-Stops start r fuel (suc i) p (omega (arith, total)) earlier in
      (d, ap (λ o. end_or o (drain fuel start r (suc i))) goes_on ∙ ends, stops)
]

-- Where the clock moves by at least the pause of 50 milliseconds from one round to the next,
-- the wait of shutdown ends within 601 rounds, after the signal is set: at the first round that
-- finds no request in flight or finds the 30 seconds over, and it says which, with the number
-- of requests left.
pub shutdown-Stops :
    (c : ShutdownCoordinator) (start : ℕ) (r : Rounds)
    → Paused start r
    → (d : Drained) × ((shutdown c start r).0 ≡ some d)
      × ((shutdown c start r).1.signal ≡ true)
      × Stops start r d
unfolding shutdown max_rounds
shutdown-Stops c start r p =
    let (d, ends, stops) =
      drain-Stops start r max_rounds 0 p refl (λ j h. absurd (omega (arith, h))) in
    (d, ends, refl, stops)
