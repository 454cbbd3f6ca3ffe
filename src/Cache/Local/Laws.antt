-- ===== src/Cache/Local/Laws.antt =====
-- The in-process map of l1_local.rs: its bound, what a look-up gives, and the puts that do not return.
use stateform.Prelude.{
  ℕ, ◌≡◌, ◌<◌, ◌⊎◌, ap, ◌≤◌, max, refl, ◌∙◌, false, none, some, List, [], ◌∷◌, leb, if◌then◌else◌,
  arith, Option-cases, Bool-cases, inl, inr,
}
use stateform.Prelude.Text.{Str}
use stateform.Cache.Entry.{CachedResponse, is_expired}
use stateform.Cache.Local.{
  MapApi, MapLaws, Ended, returns, deadlock, L1Cache, get, put, evict_one, invalidate, len,
}

-- A step of the cache's users.
pub data Op : Type 0 where
  getting : ℕ → Str → Op
  putting : Str → CachedResponse → Op
  invalidating : Str → Op

module _ (d : MapApi) where
  unfoldable pub step : Op → L1Cache d → Ended (Unit {0}) × L1Cache d
  unfolding get put invalidate
  step (getting now key) c = (returns tt, (get d now key c).1)
  step (putting key e) c = put d key e c
  step (invalidating key) c = (returns tt, invalidate d key c)

  -- What follows a call, if that returns.
  abbrev pub and_then :
      Ended (Unit {0}) × L1Cache d → Ended (Unit {0}) × L1Cache d → Ended (Unit {0}) × L1Cache d
  and_then rest (returns u, c) = rest
  and_then rest (deadlock, c) = (deadlock, c)

  -- The calls in their order, up to one that does not return.
  unfoldable pub steps : List Op → L1Cache d → Ended (Unit {0}) × L1Cache d
  unfolding step
  steps [] c = (returns tt, c)
  steps (op ∷ ops) c = and_then (steps ops (step op c).1) (step op c)

module _ (d : MapApi) (laws : MapLaws d) where
  -- Where a put finds room, or nothing to evict, it returns with the entry inserted. Otherwise
  -- it does not return, and leaves the cache.
  abbrev Ends : Str → CachedResponse → L1Cache d → Type 0
  Ends key e c =
      (((len d c < c.capacity) ⊎ (len d c ≡ 0))
        × (put d key e c ≡ (returns tt, record c { store = d.insert key e c.store })))
      ⊎ ((c.capacity ≤ len d c) × (0 < len d c) × (put d key e c ≡ (deadlock, c)))

  put-cases : (key : Str) (e : CachedResponse) (c : L1Cache d) → Ends key e c
  unfolding put evict_one len
  put-cases key e c = elim (Bool-cases (leb c.capacity (d.len c.store))) [
    | inr room ↦ rw room (inl (inl (ground arith), refl))
    | inl full ↦ elim (Option-cases (d.first_key c.store)) [
      | inl nothing ↦
          rw (full, nothing, evict_one) (inl (inr (laws.first-none c.store nothing), refl))
      | inr (k, found) ↦
          rw (full, found, laws.remove_guarded-waits c.store k found, evict_one)
            (inr (ground arith, laws.len-first c.store k found, refl))
    ]
  ]

  pub put-room :
      (key : Str) (e : CachedResponse) (c : L1Cache d)
      → len d c < c.capacity
      → put d key e c ≡ (returns tt, record c { store = d.insert key e c.store })
  put-room key e c room = elim (put-cases key e c) [
    | inl (why, done) ↦ done
    | inr (full, some_, stuck) ↦ absurd (omega (arith, full, room))
  ]

  -- A call that does not return is a put on a full store that is not empty.
  abbrev Within : ℕ → Ended (Unit {0}) × L1Cache d → Type 0
  Within n r =
      (len d r.1 ≤ max 1 n)
      × ((r.0 ≡ returns tt) ⊎ ((r.0 ≡ deadlock) × (n ≤ len d r.1) × (0 < len d r.1)))

  get-present :
      (now : ℕ) (key : Str) (e : CachedResponse) (c : L1Cache d)
      → d.get c.store key ≡ some e
      → (get d now key c).0 ≡ (if is_expired now e then none else some e)
  unfolding get
  get-present now key e c h = elim (Bool-cases (is_expired now e)) [
    | inl old ↦ rw (h, old, get) refl
    | inr fresh ↦ rw (h, fresh, get) refl
  ]

  -- A fresh entry is found and nothing is evicted.
  pub get-fresh :
      (now : ℕ) (key : Str) (e : CachedResponse) (c : L1Cache d)
      → d.get c.store key ≡ some e
      → is_expired now e ≡ false
      → get d now key c ≡ (some e, c)
  unfolding get
  get-fresh now key e c h fresh = rw (h, fresh, get) refl

  pub get-absent :
      (now : ℕ) (key : Str) (c : L1Cache d) → d.get c.store key ≡ none → get d now key c ≡ (none, c)
  unfolding get
  get-absent now key c h = rw (h, get) refl

  -- A put into a local cache that holds fewer entries than its capacity, or none, returns, and
  -- the entry is then found under its key until it expires and is gone afterwards. A put into
  -- any other local cache never returns and leaves the cache as it was.
  pub put-Ends :
      (now : ℕ) (key : Str) (e : CachedResponse) (c : L1Cache d)
      → (((len d c < c.capacity) ⊎ (len d c ≡ 0))
          × ((put d key e c).0 ≡ returns tt)
          × ((get d now key (put d key e c).1).0 ≡ (if is_expired now e then none else some e)))
        ⊎ ((c.capacity ≤ len d c) × (0 < len d c) × (put d key e c ≡ (deadlock, c)))
  put-Ends now key e c = elim (put-cases key e c) [
    | inr stuck ↦ inr stuck
    | inl (why, done) ↦ inl (
      why,
      ap (λ r. r.0) done,
      ap (λ r. (get d now key r.1).0) done
          ∙ get-present now key e (record c { store = d.insert key e c.store })
              (laws.get-insert key e c.store),
    )
  ]
