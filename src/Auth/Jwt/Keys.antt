-- ===== src/Auth/Jwt/Keys.antt =====
-- crates/gateway-auth/src/jwt.rs: `get_key` over the cache of keys.
use stateform.Prelude.{
  ◌≡◌, refl, sym, ap, ◌∙◌, ℕ, ◌-◌, ◌≤◌, true, false, Option, none, some, List, [], ◌∷◌, All, find,
  ◌⊎◌, inl, inr, le→ltb, Bool-cases, if◌then◌else◌,
}
use stateform.Prelude.Text.{Str, codes, is_some}
use stateform.Config.Schema.{JwtConfig}
use stateform.Auth.Error.{AuthError, unknown_kid, Result, ok, err, ok_or-err, Result-cases}
use stateform.Auth.Jwt.{
  Jwk, KeyCache, Meets, is_expired, find_key, same_id, kid_or_none, or_unknown_kid, from_cache,
  stale_or, on_fetch, get_key,
}

-- The look-up in the keys of a cache.
abbrev pub held : KeyCache → Option Str → Result AuthError Jwk
unfolding find_key
held c kid = or_unknown_kid kid (find_key c.keys kid)

from_cache_cases :
    (now : ℕ) (cache : Option KeyCache) (kid : Option Str)
    → (from_cache now cache kid ≡ none)
      ⊎ ((c : KeyCache) × (cache ≡ some c)
          × (is_expired now c ≡ false)
          × (from_cache now cache kid ≡ some (held c kid)))
unfolding from_cache
from_cache_cases now none kid = inl refl
from_cache_cases now (some c) kid = elim (Bool-cases (is_expired now c)) [
  | inl expired ↦ inl (rw expired refl)
  | inr fresh ↦ inr (c, refl, fresh, rw fresh refl)
]

-- The four ways through `get_key`.
pub data Way (cfg : JwtConfig) (w : Meets) (kid : Option Str) : Type 0 where
  by_read :
      (c : KeyCache)
      → w.read_cache ≡ some c
      → get_key cfg w kid ≡ (held c kid, w.read_cache)
      → Way cfg w kid
  by_write :
      (c : KeyCache)
      → w.write_cache ≡ some c
      → get_key cfg w kid ≡ (held c kid, w.write_cache)
      → Way cfg w kid
  by_fetch :
      (keys : List Jwk)
      → w.fetched ≡ ok keys
      → get_key cfg w kid ≡ (
        or_unknown_kid kid (find (λ k. same_id k.key_id kid) keys),
        some (record { keys = keys; fetched_at = w.fetched_at; ttl = cfg.jwks_cache_ttl }),
      )
      → Way cfg w kid
  by_stale :
      (e : AuthError)
      → w.fetched ≡ err e
      → get_key cfg w kid ≡ (stale_or w.write_cache kid e, w.write_cache)
      → Way cfg w kid

pub get_key_cases : (cfg : JwtConfig) (w : Meets) (kid : Option Str) → Way cfg w kid
unfolding get_key on_fetch
get_key_cases cfg w kid = elim (from_cache_cases w.read_at w.read_cache kid) [
  | inr (c, there, fresh, answered) ↦ Way.by_read c there (rw answered refl)
  | inl slow ↦ elim (from_cache_cases w.write_at w.write_cache kid) [
    | inr (c, there, fresh, answered) ↦ Way.by_write c there (rw (slow, answered) refl)
    | inl expired ↦ elim (Result-cases w.fetched) [
      | inl (keys, fetched) ↦ Way.by_fetch keys fetched (rw (slow, expired, fetched) refl)
      | inr (e, failed) ↦ Way.by_stale e failed (rw (slow, expired, failed) refl)
    ]
  ]
]

-- A cache under the write lock, however old, and an answer that is an error.
pub get_key-cached_err :
    (cfg : JwtConfig) (w : Meets) (kid : Option Str) (c : KeyCache) {e : AuthError}
    → w.write_cache ≡ some c
    → (get_key cfg w kid).0 ≡ err e
    → e ≡ unknown_kid (kid_or_none kid)
unfolding get_key find_key
get_key-cached_err cfg w kid c present h = elim (get_key_cases cfg w kid) [
  | Way.by_read d there way ↦ ok_or-err (find_key d.keys kid) _ (sym (ap (λ r. r.0) way) ∙ h)
  | Way.by_write d there way ↦ ok_or-err (find_key d.keys kid) _ (sym (ap (λ r. r.0) way) ∙ h)
  | Way.by_fetch keys fetched way ↦
      ok_or-err (find (λ k. same_id k.key_id kid) keys) _ (sym (ap (λ r. r.0) way) ∙ h)
  | Way.by_stale d failed way ↦
      ok_or-err (find_key c.keys kid) _
        (sym (ap (λ r. r.0) way ∙ ap (λ o. stale_or o kid d) present) ∙ h)
]

-- However old the cached keys are, a fetch that fails leaves them in use.
pub get_key-stale :
    (cfg : JwtConfig) (w : Meets) (kid : Option Str) (c : KeyCache) (e : AuthError)
    → w.read_cache ≡ some c
    → w.write_cache ≡ some c
    → w.fetched ≡ err e
    → get_key cfg w kid ≡ (or_unknown_kid kid (find_key c.keys kid), some c)
unfolding find_key
get_key-stale cfg w kid c e read written failed = elim (get_key_cases cfg w kid) [
  | Way.by_read d there way ↦ way ∙ with_cache w.read_cache d there read
  | Way.by_write d there way ↦ way ∙ with_cache w.write_cache d there written
  | Way.by_fetch keys fetched way ↦ absurd (cc)
  | Way.by_stale d same way ↦ way ∙ ap (λ o. (stale_or o kid d, o)) written
]
  where
    with_cache :
        (cache : Option KeyCache) (d : KeyCache)
        → cache ≡ some d
        → cache ≡ some c
        → ◌≡◌ {A = Result AuthError Jwk × Option KeyCache} (held d kid, cache) (held c kid, some c)
    with_cache none d there here = absurd (cc)
    with_cache (some b) d there here = cc

abbrev pub KeepsId : Jwk → Type 0
KeepsId k = is_some k.key_id ≡ true

find-KeepsId : (keys : List Jwk) → All KeepsId keys → find (λ k. same_id k.key_id none) keys ≡ none
find-KeepsId [] a = refl
find-KeepsId (k ∷ keys) a = other k.key_id a.0 (find-KeepsId keys a.1)
  where
    other :
        (o : Option Str)
        → is_some o ≡ true
        → find (λ j. same_id j.key_id none) keys ≡ none
        → (if same_id o none then some k else find (λ j. same_id j.key_id none) keys) ≡ none
    other none h rest = absurd (cc)
    other (some s) h rest = rest

-- A token without a key id, against a key set all of whose keys have one, is refused by the
-- call that fetches the set into an empty cache, and the next call that reads that cache within
-- its lifetime gives it the first key.
pub get_key-without_kid :
    (cfg : JwtConfig) (w v : Meets) (k : Jwk) (keys : List Jwk)
    → All KeepsId (k ∷ keys)
    → w.read_cache ≡ none
    → w.write_cache ≡ none
    → w.fetched ≡ ok (k ∷ keys)
    → v.read_cache ≡ (get_key cfg w none).1
    → v.read_at - w.fetched_at ≤ cfg.jwks_cache_ttl
    → ((get_key cfg w none).0 ≡ err (unknown_kid (codes "(none)")))
      × ((get_key cfg v none).0 ≡ ok k)
unfolding get_key on_fetch from_cache is_expired find_key
get_key-without_kid cfg w v k keys a cold_read cold_write fetched next soon = (
  ap (λ r. r.0) first_call ∙ ap (λ o. or_unknown_kid none o) (find-KeepsId (k ∷ keys) a),
  rw (next ∙ ap (λ r. r.1) first_call, le→ltb cfg.jwks_cache_ttl (v.read_at - w.fetched_at) soon)
      refl,
)
  where
    first_call : get_key cfg w none ≡ (
      or_unknown_kid none (find (λ k. same_id k.key_id none) (k ∷ keys)),
      some (record { keys = k ∷ keys; fetched_at = w.fetched_at; ttl = cfg.jwks_cache_ttl }),
    )
    first_call = rw (cold_read, cold_write, fetched) refl
