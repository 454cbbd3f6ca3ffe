-- ===== src/Cache/Local.antt =====
-- crates/gateway-cache/src/l1_local.rs: the bounded in-process map. `DashMap` is not in the
-- repository: its operations are a parameter, and what is relied on are the laws below.
pub mod Laws
use stateform.Prelude.{
  ℕ, suc, ◌-◌, ◌<◌, ◌≡◌, ◌≢◌, Bool, true, false, Option, none, some, List, [], ◌∷◌, leb,
  if◌then◌else◌,
}
use stateform.Prelude.Text.{Str, is_some}
use stateform.Cache.Entry.{CachedResponse, is_expired}

-- How a call ends: it returns, or it waits for ever for a lock that it holds itself.
pub data Ended (A : Type 0) : Type 0 where
  returns : A → Ended A
  deadlock : Ended A

abbrev pub and_returns : {A B : Type 0} → B → Ended A → Ended B
and_returns b (returns a) = returns b
and_returns b deadlock = deadlock

-- `DashMap<String, CachedResponse>`; `first_key` is `iter().next()`, and `remove_guarded` is `remove`
-- called while that iterator lives, which holds the read guard of the shard of the key it has given.
pub record MapApi : Type 1 where
  pub DashMap : Type 0
  pub empty : DashMap
  pub get : DashMap → Str → Option CachedResponse
  pub insert : Str → CachedResponse → DashMap → DashMap
  pub remove : Str → DashMap → DashMap
  pub remove_guarded : Str → DashMap → Ended (Unit {0}) × DashMap
  pub len : DashMap → ℕ
  pub first_key : DashMap → Option Str

pub record MapLaws (d : MapApi) : Type 0 where
  pub get-insert :
      (k : Str) (e : CachedResponse) (m : d.DashMap) → d.get (d.insert k e m) k ≡ some e
  pub get-insert_other :
      (k q : Str) (e : CachedResponse) (m : d.DashMap)
      → q ≢ k
      → d.get (d.insert k e m) q ≡ d.get m q
  pub get-remove : (k : Str) (m : d.DashMap) → d.get (d.remove k m) k ≡ none
  pub get-remove_other : (k q : Str) (m : d.DashMap) → q ≢ k → d.get (d.remove k m) q ≡ d.get m q
  pub len-empty : d.len d.empty ≡ 0
  pub len-insert :
      (k : Str) (e : CachedResponse) (m : d.DashMap)
      → d.len (d.insert k e m) ≡ (if is_some (d.get m k) then d.len m else suc (d.len m))
  pub len-remove :
      (k : Str) (m : d.DashMap)
      → d.len (d.remove k m) ≡ (if is_some (d.get m k) then d.len m - 1 else d.len m)
  pub first-none : (m : d.DashMap) → d.first_key m ≡ none → d.len m ≡ 0
  pub first-some : (m : d.DashMap) (k : Str) → d.first_key m ≡ some k → is_some (d.get m k) ≡ true
  pub len-first : (m : d.DashMap) (k : Str) → d.first_key m ≡ some k → 0 < d.len m
  -- `remove` waits for the write lock of the shard, whose read guard the caller does not give back.
  pub remove_guarded-waits :
      (m : d.DashMap) (k : Str) → d.first_key m ≡ some k → d.remove_guarded k m ≡ (deadlock, m)

module _ (d : MapApi) where
  pub record L1Cache : Type 0 where
    pub store : d.DashMap
    pub capacity : ℕ

  unfoldable pub new : ℕ → L1Cache
  new capacity = record { store = d.empty; capacity = capacity }

  -- The entry, and the cache after the lazy eviction.
  unfoldable pub get : ℕ → Str → L1Cache → Option CachedResponse × L1Cache
  unfolding is_expired
  get now key c = elim (d.get c.store key) [
    | none ↦ (none, c)
    | some entry ↦
        if is_expired now entry
        then (none, record c { store = d.remove key c.store })
        else (some entry, c)
  ]

  -- The iterator is a temporary of the `if let`, and lives until its block ends: `drop(entry)` drops
  -- one of the two references to its guard.
  unfoldable pub evict_one : d.DashMap → Ended (Unit {0}) × d.DashMap
  evict_one m = elim (d.first_key m) [ none ↦ (returns tt, m) | some k ↦ d.remove_guarded k m ]

  abbrev pub then_insert :
      Str → CachedResponse → L1Cache → Ended (Unit {0}) × d.DashMap → Ended (Unit {0}) × L1Cache
  then_insert key response c (returns u, m) =
      (returns tt, record c { store = d.insert key response m })
  then_insert key response c (deadlock, m) = (deadlock, record c { store = m })

  unfoldable pub put : Str → CachedResponse → L1Cache → Ended (Unit {0}) × L1Cache
  unfolding evict_one
  put key response c =
      then_insert key response c
        (if leb c.capacity (d.len c.store) then evict_one c.store else (returns tt, c.store))

  unfoldable pub invalidate : Str → L1Cache → L1Cache
  invalidate key c = record c { store = d.remove key c.store }

  unfoldable pub len : L1Cache → ℕ
  len c = d.len c.store
