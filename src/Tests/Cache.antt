-- ===== src/Tests/Cache.antt =====
-- The theorems on crates/gateway-cache at concrete inputs.
use mathlib.Core.List.{Permᴰ}
use stateform.Prelude.{
  ℕ, arith, ◌<◌, ◌≡◌, ◌≤◌, ◌⊎◌, refl, sym, ap, inr, true, false, none, some, List, [], ◌∷◌, any,
  if◌then◌else◌,
}
use stateform.Prelude.Text.{
  Str, codes, str_eq, trim, trim_start_matches, split, strip_prefix, parse_u64, parse_digits,
}
use stateform.Config.Schema.{CacheMiddlewareConfig, Duration}
use stateform.Cache.Control.{
  CacheControl, parse, directives, resolve_ttl, from_secs, from_headers, parse_vary,
  apply_directive, apply_directives, parse_delta_seconds,
}
use stateform.Cache.Control.Directives.{last_some, parse-reads}
use stateform.Cache.Entry as Entry
use stateform.Cache.Entry.{CachedResponse, is_expired}
use stateform.Cache.Key as Key
use stateform.Cache.Key.{with_vary, storable, storable_headers, vary_suffix, sort_pairs, pair_of}
use stateform.Cache.Key.Laws.{with_vary-Permᴰ}
use stateform.Cache.Local as Local
use stateform.Cache.Local.{Ended, returns, deadlock, L1Cache, put, get}
use stateform.Cache.Local.Laws.{Op, getting, putting, invalidating, steps, put-Ends}
use stateform.Cache.Redis as Redis
use stateform.Cache.Redis.{RedisApi, JsonApi}
use stateform.Cache.Layer.{
  CacheLookup, hit, miss, ResponseCache, lookup, store, forbids, is_private, is_cacheable_method,
}
use stateform.Cache.Layer.Laws.{RedisLaws, store-refused, store-private}
use stateform.Cache.Layer.Found.{store-lookup_varied, store-lookup_plain}
use stateform.Tests.DashMap.{test_map, test_map-MapLaws, find_key, str_neq}
use stateform.Tests.Fixtures as Fixtures
use stateform.Tests.Fixtures.{test_headers}

abbrev test_redis : RedisApi
test_redis = record {
  Conn = List (Str × Str);
  get = λ conn k. some (Fixtures.lookup conn k);
  setex = λ k ttl json conn. (k, json) ∷ conn;
  del = λ k conn. conn;
}

abbrev of_body : List ℕ → CachedResponse
of_body body = record {
  status = 200;
  headers = [];
  body = body;
  ttl_secs = 60;
  stored_at_secs = 0;
  vary_headers = [];
}

abbrev test_json : JsonApi
test_json = record { to_string = λ e. some e.body; from_str = λ json. some (of_body json) }

test_redis-RedisLaws : RedisLaws test_redis
unfolding Fixtures.lookup
test_redis-RedisLaws = record {
  get-setex_other = λ k q json ttl conn other.
      ap (λ b. some (if b then some json else Fixtures.lookup conn q))
        (str_neq k q (λ e. other (sym e)));
}

abbrev control : CacheControl
control = record {
  no_store = false;
  no_cache = false;
  private_ = true;
  max_age = some 30;
  s_maxage = some 90;
}

parse-reads_example :
    ((parse (codes "Private, max-age=30")).no_store
      ≡ any (λ d. str_eq d (codes "no-store")) (directives (codes "Private, max-age=30")))
    × ((parse (codes "Private, max-age=30")).no_cache
        ≡ any (λ d. str_eq d (codes "no-cache")) (directives (codes "Private, max-age=30")))
    × ((parse (codes "Private, max-age=30")).private_
        ≡ any (λ d. str_eq d (codes "private")) (directives (codes "Private, max-age=30")))
    × ((parse (codes "Private, max-age=30")).max_age
        ≡ last_some
            (λ d. parse_delta_seconds d (codes "max-age="))
            (directives (codes "Private, max-age=30")))
    × ((parse (codes "Private, max-age=30")).s_maxage
        ≡ last_some
            (λ d. parse_delta_seconds d (codes "s-maxage="))
            (directives (codes "Private, max-age=30")))
parse-reads_example = parse-reads (codes "Private, max-age=30")

parsed : parse (codes "Private,max-age=30, s-maxage=+90") ≡ control
unfolding parse apply_directives apply_directive str_eq parse_delta_seconds strip_prefix parse_u64
    parse_digits trim trim_start_matches split
parsed = refl

abbrev minute : Duration
minute = from_secs 60

abbrev get_key : Str
get_key = codes "stateform:cache:GET:r1:/"

abbrev request : List (Str × Str)
request = (codes "accept", codes "json") ∷ (codes "accept-encoding", codes "gzip") ∷ []

with_vary-Permᴰ_example :
    with_vary test_headers get_key (codes "accept" ∷ codes "accept-encoding" ∷ []) request
    ≡ with_vary test_headers get_key (codes "accept-encoding" ∷ codes "accept" ∷ []) request
with_vary-Permᴰ_example =
    with_vary-Permᴰ test_headers get_key request (codes "accept" ∷ codes "accept-encoding" ∷ [])
      (codes "accept-encoding" ∷ codes "accept" ∷ []) (Permᴰ.swap refl refl)

abbrev ops : List Op
ops =
    putting (codes "a") (of_body [])
    ∷ putting (codes "b") (of_body [])
    ∷ getting 9 (codes "a")
    ∷ invalidating (codes "b")
    ∷ []

-- The second put meets a full cache.
abbrev one_left : Ended (Unit {0}) × L1Cache test_map
one_left = steps test_map ops (Local.new test_map 1)

-- A cache of one entry, which holds one.
abbrev full_one : L1Cache test_map
full_one = (put test_map (codes "b") (of_body []) (Local.new test_map 1)).1

put-Ends_example :
    (((Local.len test_map full_one < full_one.capacity) ⊎ (Local.len test_map full_one ≡ 0))
      × ((put test_map (codes "a") (of_body []) full_one).0 ≡ returns tt)
      × ((get test_map 9 (codes "a") (put test_map (codes "a") (of_body []) full_one).1).0
          ≡ (if is_expired 9 (of_body []) then none else some (of_body []))))
    ⊎ ((full_one.capacity ≤ Local.len test_map full_one)
        × (0 < Local.len test_map full_one)
        × (put test_map (codes "a") (of_body []) full_one ≡ (deadlock, full_one)))
put-Ends_example = put-Ends test_map test_map-MapLaws 9 (codes "a") (of_body []) full_one

abbrev rule : CacheMiddlewareConfig
rule = record { ttl = minute; read_only = false }

abbrev plain : List (Str × Str)
plain = (codes "vary", []) ∷ []

abbrev varied : List (Str × Str)
varied = (codes "vary", codes "Accept") ∷ []

abbrev secret : List (Str × Str)
secret = (codes "cache-control", codes "private") ∷ (codes "vary", []) ∷ []

abbrev silent : List (Str × Str)
silent = (codes "etag", codes "1") ∷ []

abbrev caches : ResponseCache test_headers test_map test_redis test_json
caches = record { l1 = Local.new test_map 8; l2 = [] }

is_secret : is_private (from_headers test_headers secret) ≡ true
unfolding from_headers parse apply_directives apply_directive str_eq parse_delta_seconds
    strip_prefix parse_u64 parse_digits trim trim_start_matches split Fixtures.lookup
is_secret = refl

store-private_example :
    (store test_headers test_map test_redis test_json 5
      (some rule)
      (codes "r1")
      (codes "GET")
      (codes "/")
      none
      200
      secret
      (codes "body")
      request
      caches).1.l2
    ≡ []
store-private_example =
    store-private test_headers test_map test_redis test_json 5 (codes "r1") (codes "GET")
      (codes "/") none 200 secret (codes "body") request caches (some rule) is_secret

no_vary : parse_vary test_headers silent ≡ none
unfolding parse_vary Fixtures.lookup str_eq
no_vary = refl

store-refused_example :
    store test_headers test_map test_redis test_json 5
      (some rule)
      (codes "r1")
      (codes "GET")
      (codes "/")
      none
      200
      silent
      (codes "body")
      request
      caches
    ≡ (returns tt, caches)
store-refused_example =
    store-refused test_headers test_map test_redis test_json 5 (codes "r1") (codes "GET")
      (codes "/") none 200 silent (codes "body") request caches (some rule) (inr no_vary)

names_accept : parse_vary test_headers varied ≡ some (codes "accept" ∷ [])
unfolding parse_vary Fixtures.lookup str_eq trim trim_start_matches split
names_accept = refl

nothing_local :
    test_map.get caches.l1.store (Key.new (codes "GET") (codes "r1") (codes "/") none) ≡ none
unfolding Local.new find_key
nothing_local = refl

nothing_shared :
    Redis.get test_redis test_json (Key.new (codes "GET") (codes "r1") (codes "/") none) [] ≡ none
unfolding Redis.get Fixtures.lookup
nothing_shared = refl

abbrev after :
    List (Str × Str) → Ended (Unit {0}) × ResponseCache test_headers test_map test_redis test_json
after response =
    store test_headers test_map test_redis test_json 5 (some rule) (codes "r1") (codes "GET")
      (codes "/") none 200 response (codes "body") request caches

abbrev answer : List (Str × Str) → Ended CacheLookup
answer response =
    (lookup test_headers test_map test_redis test_json 9 9 (some rule) (codes "r1") (codes "GET")
      (codes "/") none request (after response).1).0

has_room : Local.len test_map caches.l1 < caches.l1.capacity
unfolding Local.new Local.len
has_room = omega arith

resolves_varied : resolve_ttl (from_headers test_headers varied) minute ≡ some minute
unfolding resolve_ttl from_headers Fixtures.lookup str_eq
resolves_varied = refl

allows : forbids (from_headers test_headers request) ≡ false
unfolding from_headers Fixtures.lookup str_eq
allows = refl

gets : is_cacheable_method (codes "GET") ≡ true
unfolding str_eq
gets = refl

store-lookup_varied_example :
    ((after varied).0 ≡ returns tt)
    × (test_map.get (after varied).1.l1.store (
          with_vary test_headers
            (Key.new (codes "GET") (codes "r1") (codes "/") none)
            (codes "accept" ∷ [])
            request)
        ≡ some (
            Entry.new 5 200
              (storable_headers test_headers varied)
              (codes "body")
              minute
              (codes "accept" ∷ [])))
    × (answer varied ≡ returns miss)
store-lookup_varied_example =
    store-lookup_varied test_headers test_map test_redis test_json test_map-MapLaws
      test_redis-RedisLaws 9 9 (codes "r1") (codes "GET") (codes "/") none request 5 200 varied
      (codes "body") caches has_room rule minute (codes "accept") [] refl refl resolves_varied
      names_accept allows gets nothing_local nothing_shared

abbrev kept : CachedResponse
kept = Entry.new 5 200 (storable_headers test_headers plain) (codes "body") minute []

names_nothing : parse_vary test_headers plain ≡ some []
unfolding parse_vary Fixtures.lookup str_eq trim trim_start_matches split
names_nothing = refl

resolves : resolve_ttl (from_headers test_headers plain) minute ≡ some minute
unfolding resolve_ttl from_headers Fixtures.lookup str_eq
resolves = refl

is_fresh : is_expired 9 kept ≡ false
unfolding is_expired Entry.new
is_fresh = refl

store-lookup_plain_example : ((after plain).0 ≡ returns tt) × (answer plain ≡ returns (hit kept))
store-lookup_plain_example =
    store-lookup_plain test_headers test_map test_redis test_json test_map-MapLaws
      test_redis-RedisLaws 9 9 (codes "r1") (codes "GET") (codes "/") none request 5 200 plain
      (codes "body") caches has_room rule minute refl refl resolves names_nothing allows gets
      is_fresh is_fresh
