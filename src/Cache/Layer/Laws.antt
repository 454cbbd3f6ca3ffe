-- ===== src/Cache/Layer/Laws.antt =====
-- What cache.rs stores, where, and what a later look-up finds.
use stateform.Prelude.{
  ℕ, ◌<◌, ◌≡◌, ◌≢◌, refl, ap, ◌∙◌, Bool, true, false, not, Option, none, some, List, [], ◌∷◌, ◌++◌,
  map, length, length-append, if◌then◌else◌, arith, Bool-cases, inl, inr, ◌⊎◌,
}
use stateform.Prelude.Text.{Str, str_ltb}
use stateform.Config.Schema.{CacheMiddlewareConfig, Duration}
use stateform.Http.{HeaderApi}
use stateform.Cache.Control as Control
use stateform.Cache.Control.{header_text}
use stateform.Cache.Entry as Entry
use stateform.Cache.Entry.{CachedResponse, is_expired}
use stateform.Cache.Key as Key
use stateform.Cache.Key.{with_vary, storable_headers, insert_pair, sort_pairs, vary_suffix, pair_of}
use stateform.Cache.Local.{Ended, returns, deadlock, MapApi, L1Cache}
use stateform.Cache.Redis.{RedisApi, JsonApi}
use stateform.Cache.Layer.{
  ResponseCache, store, put_both, after_l1, forbids, is_private, is_success,
}

-- A write under one key leaves the others as they were.
pub record RedisLaws (r : RedisApi) : Type 0 where
  pub get-setex_other :
      (k q json : Str) (ttl : ℕ) (conn : r.Conn)
      → q ≢ k
      → r.get (r.setex k ttl json conn) q ≡ r.get conn q

insert_pair-some :
    (a : Str × Str) (l : List (Str × Str)) → 0 < length (vary_suffix (insert_pair a l))
unfolding insert_pair vary_suffix
insert_pair-some a [] = omega arith
insert_pair-some a (b ∷ l) = elim (Bool-cases (str_ltb b.0 a.0)) [
  | inl below ↦ rw (below, insert_pair) (omega arith)
  | inr above ↦ rw (above, insert_pair) (omega arith)
]

-- The key of a varying response is longer than the key without the values.
pub with_vary-other :
    (h : HeaderApi) (key name : Str) (names : List Str) (headers : h.HeaderMap)
    → key ≢ with_vary h key (name ∷ names) headers
unfolding with_vary sort_pairs
with_vary-other h key name names headers same =
    let suffix = vary_suffix (sort_pairs (map (pair_of h headers) (name ∷ names))) in
    let long =
      insert_pair-some (pair_of h headers name) (sort_pairs (map (pair_of h headers) names)) in
    let total = length-append key suffix in
    let equal : length key ≡ length (key ++ suffix) = ap length same in absurd (omega arith)

-- The guards of `store` in their order, over the write that they guard.
module _ {A : Type 0} (write : Duration → List Str → A) (c : A) where
  abbrev guarded : (read_only success : Bool) → Option Duration → Option (List Str) → A
  guarded read_only success t v =
      if read_only
      then c
      else if not success
      then c
      else elim t [ none ↦ c | some ttl ↦ elim v [ none ↦ c | some names ↦ write ttl names ] ]

  guarded-cases :
      (read_only success : Bool) (t : Option Duration) (v : Option (List Str))
      → (guarded read_only success t v ≡ c)
        ⊎ (ttl : Duration) × (names : List Str) × (t ≡ some ttl)
          × (v ≡ some names)
          × (guarded read_only success t v ≡ write ttl names)
  guarded-cases true success t v = inl refl
  guarded-cases false false t v = inl refl
  guarded-cases false true none v = inl refl
  guarded-cases false true (some ttl) none = inl refl
  guarded-cases false true (some ttl) (some names) = inr (ttl, names, refl, refl, refl)

module _ (h : HeaderApi) (d : MapApi) (r : RedisApi) (j : JsonApi) where
  module _ (now : ℕ) (route_id method path : Str) (query : Option Str) (status : ℕ)
      (response_headers : h.HeaderMap) (body : List ℕ) (request_headers : h.HeaderMap)
      (c : ResponseCache h d r j) where
    -- What is written, for a TTL and the names of `Vary`.
    abbrev pub written : Duration → List Str → Ended (Unit {0}) × ResponseCache h d r j
    written ttl names =
        put_both h d r j (with_vary h (Key.new method route_id path query) names request_headers)
          (Entry.new now status (storable_headers h response_headers) body ttl names) ttl
          (is_private (Control.from_headers h response_headers)) c

    abbrev pub stored : Option CacheMiddlewareConfig → Ended (Unit {0}) × ResponseCache h d r j
    stored cfg =
        store h d r j now cfg route_id method path query status response_headers body
          request_headers c

    -- A store writes nothing, or it writes for the resolved TTL and the names of `Vary`.
    pub store-cases :
        (cfg : Option CacheMiddlewareConfig)
        → (stored cfg ≡ (returns tt, c))
          ⊎ (ttl : Duration) × (names : List Str) × (forbids
                (Control.from_headers h response_headers)
              ≡ false)
            × (Control.parse_vary h response_headers ≡ some names)
            × (stored cfg ≡ written ttl names)
    unfolding store
    store-cases none = inl refl
    store-cases (some cfg) =
        elim (guarded-cases written (returns tt, c) cfg.read_only (is_success status)
          (Control.resolve_ttl (Control.from_headers h response_headers) cfg.ttl)
          (Control.parse_vary h response_headers)) [
            | inl same ↦ inl same
            | inr (ttl, names, timed, varies, writes) ↦ inr (
              ttl,
              names,
              allowed (Control.from_headers h response_headers) timed,
              varies,
              writes,
            )
          ]
      where
        allowed :
            (control : Option Control.CacheControl) {t : Duration}
            → Control.resolve_ttl control cfg.ttl ≡ some t
            → forbids control ≡ false
        allowed none e = refl
        allowed (some control) e = elim (Bool-cases (Control.is_uncacheable control)) [
          | inl refused ↦ absurd (cc (rw (refused, Control.resolve_ttl) at e))
          | inr fine ↦ fine
        ]

    pub store-writes :
        (cfg : CacheMiddlewareConfig) (ttl : Duration) (names : List Str)
        → cfg.read_only ≡ false
        → is_success status ≡ true
        → Control.resolve_ttl (Control.from_headers h response_headers) cfg.ttl ≡ some ttl
        → Control.parse_vary h response_headers ≡ some names
        → stored (some cfg) ≡ written ttl names
    unfolding store
    store-writes cfg ttl names writable good timed varies =
        let t = Control.resolve_ttl (Control.from_headers h response_headers) cfg.ttl in
        let v = Control.parse_vary h response_headers in
        ap (λ b. guarded written (returns tt, c) b (is_success status) t v) writable
        ∙ ap (λ b. guarded written (returns tt, c) false b t v) good
        ∙ ap (λ o. guarded written (returns tt, c) false true o v) timed
        ∙ ap (λ o. guarded written (returns tt, c) false true (some ttl) o) varies

    -- The store of a response whose Cache-Control is no-store or no-cache, or that has no
    -- readable Vary header, or one that is a star, returns and leaves both layers as they were.
    pub store-refused :
        (cfg : Option CacheMiddlewareConfig)
        → (forbids (Control.from_headers h response_headers) ≡ true)
          ⊎ (Control.parse_vary h response_headers ≡ none)
        → stored cfg ≡ (returns tt, c)
    store-refused cfg why = elim (store-cases cfg) [
      | inl same ↦ same
      | inr (ttl, names, allowed, varies, writes) ↦
          absurd (elim why [ inl no_ ↦ cc | inr no_ ↦ cc ])
    ]

    -- A response whose Cache-Control is private never reaches the shared layer.
    pub store-private :
        (cfg : Option CacheMiddlewareConfig)
        → is_private (Control.from_headers h response_headers) ≡ true
        → (stored cfg).1.l2 ≡ c.l2
    store-private cfg secret = elim (store-cases cfg) [
      | inl same ↦ ap (λ k. k.1.l2) same
      | inr (ttl, names, allowed, varies, writes) ↦
          ap (λ k. k.1.l2) writes
          ∙ rw secret (
              kept ttl (with_vary h (Key.new method route_id path query) names request_headers)
                (Entry.new now status (storable_headers h response_headers) body ttl names) _)
    ]
      where
        kept :
            (ttl : Duration) (full : Str) (entry : CachedResponse)
            (o : Ended (Unit {0}) × L1Cache d)
            → (after_l1 h d r j full entry ttl true c.l2 o).1.l2 ≡ c.l2
        kept ttl full entry (returns u, l1) = refl
        kept ttl full entry (deadlock, l1) = refl
