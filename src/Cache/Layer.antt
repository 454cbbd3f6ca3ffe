-- ===== src/Cache/Layer.antt =====
-- crates/gateway-cache/src/cache.rs: the two layers together. The arguments `now` and `later` are
-- the clock's readings at the two look-ups in the first layer.
pub mod Laws
pub mod Found
use stateform.Prelude.{
  ℕ, Bool, true, false, not, ◌||◌, ◌&&◌, Option, none, some, List, leb, ltb, if◌then◌else◌,
}
use stateform.Prelude.Text.{Str, codes, str_eq, to_ascii_uppercase}
use stateform.Config.Schema.{CacheMiddlewareConfig, Duration}
use stateform.Http.{HeaderApi}
use stateform.Cache.Control as Control
use stateform.Cache.Control.{CacheControl, as_secs}
use stateform.Cache.Entry as Entry
use stateform.Cache.Entry.{CachedResponse}
use stateform.Cache.Key as Key
use stateform.Cache.Key.{with_vary, storable_headers}
use stateform.Cache.Local as Local
use stateform.Cache.Local.{Ended, returns, deadlock, and_returns, MapApi, L1Cache}
use stateform.Cache.Redis as Redis
use stateform.Cache.Redis.{RedisApi, JsonApi}

pub data CacheLookup : Type 0 where
  hit : CachedResponse → CacheLookup
  miss : CacheLookup
  bypass : CacheLookup

abbrev pub is_cacheable_method : Str → Bool
is_cacheable_method method =
    str_eq (to_ascii_uppercase method) (codes "GET")
    || str_eq (to_ascii_uppercase method) (codes "HEAD")

abbrev pub forbids : Option CacheControl → Bool
forbids none = false
forbids (some control) = Control.is_uncacheable control

abbrev pub is_private : Option CacheControl → Bool
is_private none = false
is_private (some control) = control.private_

abbrev pub is_success : ℕ → Bool
is_success status = leb 200 status && ltb status 300

abbrev pub unwrap_or : Option CachedResponse → CachedResponse → CachedResponse
unwrap_or none e = e
unwrap_or (some found) e = found

module _ (h : HeaderApi) (d : MapApi) (r : RedisApi) (j : JsonApi) where
  pub record ResponseCache : Type 0 where
    pub l1 : L1Cache d
    pub l2 : r.Conn

  -- The second look-up in the first layer, under the key with the varying headers.
  abbrev pub rekeyed :
      ℕ → Str → h.HeaderMap → Option CachedResponse × L1Cache d → Option CachedResponse × L1Cache d
  rekeyed later base_key request_headers (none, l1) = (none, l1)
  rekeyed later base_key request_headers (some entry, l1) =
      Local.get d later (with_vary h base_key entry.vary_headers request_headers) l1

  abbrev pub from_l1 : ℕ → ℕ → Str → h.HeaderMap → L1Cache d → Option CachedResponse × L1Cache d
  from_l1 now later base_key request_headers l1 =
      rekeyed later base_key request_headers (Local.get d now base_key l1)

  -- The look-up in the second layer, which promotes what it finds.
  unfoldable pub from_l2 :
      Str → h.HeaderMap → L1Cache d → r.Conn → Ended CacheLookup × ResponseCache
  unfolding with_vary str_eq Local.put Redis.get
  from_l2 base_key request_headers l1 l2 = elim (Redis.get r j base_key l2) [
    | none ↦ (returns miss, record { l1 = l1; l2 = l2 })
    | some entry ↦
        let full_key = with_vary h base_key entry.vary_headers request_headers in
        let final_entry =
          if str_eq full_key base_key then entry else unwrap_or (Redis.get r j full_key l2) entry in
        let promoted = Local.put d full_key final_entry l1 in
        (and_returns (hit final_entry) promoted.0, record { l1 = promoted.1; l2 = l2 })
  ]

  abbrev pub or_from_l2 :
      Str
      → h.HeaderMap
      → r.Conn
      → Option CachedResponse × L1Cache d
      → Ended CacheLookup × ResponseCache
  or_from_l2 base_key request_headers l2 (some entry, l1) =
      (returns (hit entry), record { l1 = l1; l2 = l2 })
  or_from_l2 base_key request_headers l2 (none, l1) = from_l2 base_key request_headers l1 l2

  unfoldable pub lookup :
      (now later : ℕ)
      → Option CacheMiddlewareConfig
      → (route_id method path : Str) → (query : Option Str) → h.HeaderMap
      → ResponseCache
      → Ended CacheLookup × ResponseCache
  unfolding Local.get Control.from_headers Key.new from_l2
  lookup now later none route_id method path query request_headers c = (returns bypass, c)
  lookup now later (some cfg) route_id method path query request_headers c =
      if forbids (Control.from_headers h request_headers)
      then (returns bypass, c)
      else if not (is_cacheable_method method)
      then (returns bypass, c)
      else or_from_l2 (Key.new method route_id path query) request_headers c.l2
          (from_l1 now later (Key.new method route_id path query) request_headers c.l1)

  -- The second layer, once the first one's call has ended.
  abbrev pub after_l1 :
      Str
      → CachedResponse
      → Duration
      → Bool
      → r.Conn
      → Ended (Unit {0}) × L1Cache d
      → Ended (Unit {0}) × ResponseCache
  after_l1 full_key entry ttl private_ l2 (deadlock, l1) = (deadlock, record { l1 = l1; l2 = l2 })
  after_l1 full_key entry ttl private_ l2 (returns u, l1) = (
    returns tt,
    record { l1 = l1; l2 = if private_ then l2 else Redis.put r j full_key entry (as_secs ttl) l2 },
  )

  -- The end of `store`, when the entry and its key are made.
  abbrev pub put_both :
      Str → CachedResponse → Duration → Bool → ResponseCache → Ended (Unit {0}) × ResponseCache
  put_both full_key entry ttl private_ c =
      after_l1 full_key entry ttl private_ c.l2 (Local.put d full_key entry c.l1)

  unfoldable pub store :
      (now : ℕ)
      → Option CacheMiddlewareConfig
      → (route_id method path : Str) → (query : Option Str) → (status : ℕ)
      → (response_headers : h.HeaderMap) → (body : List ℕ) → (request_headers : h.HeaderMap)
      → ResponseCache
      → Ended (Unit {0}) × ResponseCache
  unfolding Control.resolve_ttl Control.parse_vary Local.put Redis.put Entry.new Key.storable
  store now none route_id method path query status response_headers body request_headers c =
      (returns tt, c)
  store now (some cfg) route_id method path query status response_headers body request_headers c =
      if cfg.read_only
      then (returns tt, c)
      else if not (is_success status)
      then (returns tt, c)
      else let response_cc = Control.from_headers h response_headers in
        elim (Control.resolve_ttl response_cc cfg.ttl) [
          | none ↦ (returns tt, c)
          | some ttl ↦ elim (Control.parse_vary h response_headers) [
            | none ↦ (returns tt, c)
            | some vary_headers ↦
                let full_key =
                  with_vary h (Key.new method route_id path query) vary_headers request_headers in
                let entry =
                  Entry.new now status (storable_headers h response_headers) body ttl
                    vary_headers in
                put_both full_key entry ttl (is_private response_cc) c
          ]
        ]

  unfoldable pub invalidate :
      (route_id method path : Str) → (query : Option Str) → ResponseCache → ResponseCache
  unfolding Local.invalidate Redis.invalidate
  invalidate route_id method path query c =
      let key = Key.new method route_id path query in
      record { l1 = Local.invalidate d key c.l1; l2 = Redis.invalidate r j key c.l2 }
