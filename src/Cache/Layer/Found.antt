-- ===== src/Cache/Layer/Found.antt =====
-- What a look-up of cache.rs finds after a store for the same request.
use stateform.Prelude.{
  ◌<◌, ℕ, ◌≡◌, ◌≢◌, refl, ap, ◌∙◌, Bool, true, false, not, Option, none, some, List, [], ◌∷◌,
  if◌then◌else◌, Bool-cases, inl, inr, ◌==◌, Option-cases,
}
use stateform.Prelude.Text.{Str}
use stateform.Config.Schema.{CacheMiddlewareConfig, Duration}
use stateform.Http.{HeaderApi}
use stateform.Cache.Control as Control
use stateform.Cache.Control.{as_secs}
use stateform.Cache.Entry as Entry
use stateform.Cache.Entry.{CachedResponse, is_expired}
use stateform.Cache.Key as Key
use stateform.Cache.Key.{with_vary, storable_headers}
use stateform.Cache.Local as Local
use stateform.Cache.Local.{Ended, returns, MapApi, MapLaws, L1Cache}
use stateform.Cache.Local.Laws.{get-absent, get-fresh, put-room}
use stateform.Cache.Redis as Redis
use stateform.Cache.Redis.{RedisApi, JsonApi}
use stateform.Cache.Layer.{
  CacheLookup, hit, miss, bypass, ResponseCache, lookup, after_l1, from_l1, rekeyed, from_l2,
  or_from_l2, forbids, is_private, is_success, is_cacheable_method,
}
use stateform.Cache.Layer.Laws.{RedisLaws, with_vary-other, stored, store-writes}

module _ (h : HeaderApi) (d : MapApi) (r : RedisApi) (j : JsonApi) (laws : MapLaws d)
    (redis : RedisLaws r) where
  abbrev Answer : Type 0
  Answer = Ended CacheLookup × ResponseCache h d r j

  or-absent :
      (now later : ℕ) (key : Str) (request_headers : h.HeaderMap) (c : ResponseCache h d r j)
      → d.get c.l1.store key ≡ none
      → Redis.get r j key c.l2 ≡ none
      → (or_from_l2 h d r j key request_headers c.l2
          (from_l1 h d r j now later key request_headers c.l1)).0
        ≡ returns miss
  unfolding from_l2
  or-absent now later key request_headers c p q =
      ap
        (λ o.
          (or_from_l2 h d r j key request_headers c.l2
            (rekeyed h d r j later key request_headers o)).0)
        (get-absent d laws now key c.l1 p)
      ∙ rw (q, from_l2) refl

  -- The two gates of a look-up.
  abbrev gated : Bool → Bool → ResponseCache h d r j → Answer → Answer
  gated forbidden allowed c answer =
      if forbidden then (returns bypass, c) else if not allowed then (returns bypass, c) else answer

  module _ (now later : ℕ) (route_id method path : Str) (query : Option Str)
      (request_headers : h.HeaderMap) where
    abbrev base_key : Str
    base_key = Key.new method route_id path query

    abbrev answered : Option CacheMiddlewareConfig → ResponseCache h d r j → Ended CacheLookup
    answered cfg c = (lookup h d r j now later cfg route_id method path query request_headers c).0

    -- Past the two gates.
    lookup-open :
        (cfg : CacheMiddlewareConfig) (c : ResponseCache h d r j)
        → forbids (Control.from_headers h request_headers) ≡ false
        → is_cacheable_method method ≡ true
        → answered (some cfg) c
          ≡ (or_from_l2 h d r j base_key request_headers c.l2
              (from_l1 h d r j now later base_key request_headers c.l1)).0
    unfolding lookup
    lookup-open cfg c allowed method_ok =
        let answer =
          or_from_l2 h d r j base_key request_headers c.l2
            (from_l1 h d r j now later base_key request_headers c.l1) in
        ap (λ b. (gated b (is_cacheable_method method) c answer).0) allowed
        ∙ ap (λ b. (gated false b c answer).0) method_ok

    module _ (stored_at status : ℕ) (response_headers : h.HeaderMap) (body : List ℕ)
        (c : ResponseCache h d r j) (room : Local.len d c.l1 < c.l1.capacity) where
      abbrev after : CacheMiddlewareConfig → Ended (Unit {0}) × ResponseCache h d r j
      after cfg =
          stored h d r j stored_at route_id method path query status response_headers body
            request_headers c (some cfg)

      -- The entry that is made, and the first layer with it.
      abbrev entry_of : Duration → List Str → CachedResponse
      entry_of ttl names =
          Entry.new stored_at status (storable_headers h response_headers) body ttl names

      abbrev full_key : List Str → Str
      full_key names = with_vary h base_key names request_headers

      abbrev l1_with : Duration → List Str → L1Cache d
      l1_with ttl names = record c.l1 {
        store = d.insert (full_key names) (entry_of ttl names) c.l1.store;
      }

      -- The second layer after the store.
      abbrev l2_with : Duration → List Str → r.Conn
      l2_with ttl names =
          if is_private (Control.from_headers h response_headers)
          then c.l2
          else Redis.put r j (full_key names) (entry_of ttl names) (as_secs ttl) c.l2

      -- Where the first layer has room, a store that may write returns, with the entry in it.
      store-inserts :
          (cfg : CacheMiddlewareConfig) (ttl : Duration) (names : List Str)
          → cfg.read_only ≡ false
          → is_success status ≡ true
          → Control.resolve_ttl (Control.from_headers h response_headers) cfg.ttl ≡ some ttl
          → Control.parse_vary h response_headers ≡ some names
          → after cfg ≡ (returns tt, record { l1 = l1_with ttl names; l2 = l2_with ttl names })
      store-inserts cfg ttl names writable good timed varies =
          store-writes h d r j stored_at route_id method path query status response_headers body
            request_headers c cfg ttl names writable good timed varies
          ∙ ap
              (after_l1 h d r j (full_key names) (entry_of ttl names) ttl
                (is_private (Control.from_headers h response_headers)) c.l2)
              (put-room d laws (full_key names) (entry_of ttl names) c.l1 room)

      redis-absent :
          (full : Str) (e : CachedResponse) (ttl : ℕ)
          → base_key ≢ full
          → Redis.get r j base_key c.l2 ≡ none
          → Redis.get r j base_key (Redis.put r j full e ttl c.l2) ≡ none
      unfolding Redis.put Redis.get
      redis-absent full e ttl other q = elim (Bool-cases (ttl == 0)) [
        | inl never ↦ rw (never, Redis.put) q
        | inr some_ ↦ elim (Option-cases (j.to_string e)) [
          | inl unprintable ↦ rw (some_, unprintable, Redis.put) q
          | inr (json, printed) ↦
              rw (some_, printed, Redis.put)
                (ap
                    (λ raw. elim (Redis.flatten r j raw) [
                      | none ↦ none
                      | some text ↦ j.from_str text
                    ])
                    (redis.get-setex_other full base_key json ttl c.l2 other)
                  ∙ q)
        ]
      ]

      l2-absent :
          (secret : Bool) (full : Str) (e : CachedResponse) (ttl : ℕ)
          → base_key ≢ full
          → Redis.get r j base_key c.l2 ≡ none
          → Redis.get r j base_key (if secret then c.l2 else Redis.put r j full e ttl c.l2) ≡ none
      l2-absent true full e ttl other q = q
      l2-absent false full e ttl other q = redis-absent full e ttl other q

      -- Where the local cache has room and the rule is not read-only, the store of a successful
      -- response with a resolved TTL whose Vary names a header returns with the entry in the
      -- local cache, under the key with the header values; and if nothing was stored under the
      -- plain key before, a look-up of the same GET or HEAD request that does not forbid the
      -- cache misses it.
      pub store-lookup_varied :
          (cfg : CacheMiddlewareConfig) (ttl : Duration) (name : Str) (names : List Str)
          → cfg.read_only ≡ false
          → is_success status ≡ true
          → Control.resolve_ttl (Control.from_headers h response_headers) cfg.ttl ≡ some ttl
          → Control.parse_vary h response_headers ≡ some (name ∷ names)
          → forbids (Control.from_headers h request_headers) ≡ false
          → is_cacheable_method method ≡ true
          → d.get c.l1.store base_key ≡ none
          → Redis.get r j base_key c.l2 ≡ none
          → ((after cfg).0 ≡ returns tt)
            × (d.get (after cfg).1.l1.store (full_key (name ∷ names))
                ≡ some (entry_of ttl (name ∷ names)))
            × (answered (some cfg) (after cfg).1 ≡ returns miss)
      store-lookup_varied cfg ttl name names writable good timed varies allowed method_ok p q =
          let inserted = store-inserts cfg ttl (name ∷ names) writable good timed varies in
          let full = full_key (name ∷ names) in
          let e = entry_of ttl (name ∷ names) in
          let other = with_vary-other h base_key name names request_headers in
          let c' : ResponseCache h d r j = record {
            l1 = l1_with ttl (name ∷ names);
            l2 = l2_with ttl (name ∷ names);
          } in
          (
            ap (λ a. a.0) inserted,
            ap (λ a. d.get a.1.l1.store full) inserted ∙ laws.get-insert full e c.l1.store,
            ap (λ a. answered (some cfg) a.1) inserted
                ∙ lookup-open cfg c' allowed method_ok
                ∙ or-absent now later base_key request_headers c'
                    (laws.get-insert_other full base_key e c.l1.store other ∙ p)
                    (l2-absent (is_private (Control.from_headers h response_headers)) full e
                      (as_secs ttl) other q),
          )

      -- A fresh entry under the base key that varies on nothing answers the look-up.
      lookup-fresh :
          (cfg : CacheMiddlewareConfig) (e : CachedResponse) (c' : ResponseCache h d r j)
          → d.get c'.l1.store base_key ≡ some e
          → e.vary_headers ≡ []
          → is_expired now e ≡ false
          → is_expired later e ≡ false
          → forbids (Control.from_headers h request_headers) ≡ false
          → is_cacheable_method method ≡ true
          → answered (some cfg) c' ≡ returns (hit e)
      unfolding with_vary
      lookup-fresh cfg e c' there plain fresh fresher allowed method_ok =
          let again : List Str → Option CachedResponse × L1Cache d =
            λ names. Local.get d later (with_vary h base_key names request_headers) c'.l1 in
          let one : from_l1 h d r j now later base_key request_headers c'.l1 ≡ (some e, c'.l1) =
            ap (rekeyed h d r j later base_key request_headers)
              (get-fresh d laws now base_key e c'.l1 there fresh)
            ∙ ap again plain
            ∙ get-fresh d laws later base_key e c'.l1 there fresher in
          lookup-open cfg c' allowed method_ok
          ∙ ap (λ o. (or_from_l2 h d r j base_key request_headers c'.l2 o).0) one

      -- Where the local cache holds fewer entries than its capacity and the route's rule is not
      -- read-only, the store of a successful response with a resolved TTL and a Vary header
      -- that names nothing returns, and the response is found again, unchanged, by a look-up of
      -- the same GET or HEAD request, if that does not forbid the cache and the entry has not
      -- expired at the look-up's readings of the clock.
      pub store-lookup_plain :
          (cfg : CacheMiddlewareConfig) (ttl : Duration)
          → cfg.read_only ≡ false
          → is_success status ≡ true
          → Control.resolve_ttl (Control.from_headers h response_headers) cfg.ttl ≡ some ttl
          → Control.parse_vary h response_headers ≡ some []
          → forbids (Control.from_headers h request_headers) ≡ false
          → is_cacheable_method method ≡ true
          → is_expired now (entry_of ttl []) ≡ false
          → is_expired later (entry_of ttl []) ≡ false
          → ((after cfg).0 ≡ returns tt)
            × (answered (some cfg) (after cfg).1 ≡ returns (hit (entry_of ttl [])))
      unfolding with_vary Entry.new
      store-lookup_plain cfg ttl writable good timed plain allowed method_ok fresh fresher =
          let inserted = store-inserts cfg ttl [] writable good timed plain in
          (
            ap (λ a. a.0) inserted,
            ap (λ a. answered (some cfg) a.1) inserted
                ∙ lookup-fresh cfg (entry_of ttl [])
                    (record { l1 = l1_with ttl []; l2 = l2_with ttl [] })
                    (laws.get-insert base_key _ _) refl fresh fresher allowed method_ok,
          )
