-- ===== src/Auth/Jwt.antt =====
-- crates/gateway-auth/src/jwt.rs: bearer tokens and the cached key set. jsonwebtoken is not in the
-- repository: its decoding of a header, of keys and of a token are parameters, an error of theirs is
-- its message. So are the fetch of the key set over HTTP, whose outcome is an argument, and the
-- clock: a time is a number of nanoseconds.
pub mod Keys
pub mod Tokens
use stateform.Prelude.{
  ℕ, ◌-◌, ◌++◌, Bool, true, false, not, ltb, Option, none, some, List, find, first, if◌then◌else◌,
}
use stateform.Prelude.Text.{Str, codes, str_eq, strip_prefix}
use stateform.Config.Schema.{Duration, JwtConfig}
use stateform.Http.{HeaderApi}
use stateform.Auth.Context.{Claims}
use stateform.Auth.Error.{
  AuthError, missing_token, invalid_token, unknown_kid, Result, ok, err, ◌>>=◌, ok_or, map_err,
}

pub record Jwk : Type 0 where
  pub key_id : Option Str
  pub key_type : Str
  pub n : Option Str
  pub e : Option Str
  pub crv : Option Str
  pub x : Option Str
  pub y : Option Str

pub record KeyCache : Type 0 where
  pub keys : List Jwk
  pub fetched_at : ℕ
  pub ttl : Duration

unfoldable pub is_expired : ℕ → KeyCache → Bool
is_expired now c = ltb c.ttl (now - c.fetched_at)

-- `a == b` on `Option<&str>`
abbrev pub same_id : Option Str → Option Str → Bool
same_id none none = true
same_id none (some b) = false
same_id (some a) none = false
same_id (some a) (some b) = str_eq a b

unfoldable pub find_key : List Jwk → Option Str → Option Jwk
unfolding str_eq
find_key keys (some kid) = find (λ k. same_id k.key_id (some kid)) keys
find_key keys none = first keys

abbrev pub kid_or_none : Option Str → Str
kid_or_none none = codes "(none)"
kid_or_none (some kid) = kid

-- `find_key(kid).cloned().ok_or_else(...)`
abbrev pub or_unknown_kid : Option Str → Option Jwk → Result AuthError Jwk
or_unknown_kid kid found = ok_or found (unknown_kid (kid_or_none kid))

-- The answer from a cache that is there and has not expired: the test under the read lock, and
-- again under the write lock.
unfoldable pub from_cache : ℕ → Option KeyCache → Option Str → Option (Result AuthError Jwk)
unfolding is_expired find_key
from_cache now none kid = none
from_cache now (some c) kid =
    if not (is_expired now c) then some (or_unknown_kid kid (find_key c.keys kid)) else none

-- The stale cache's answer where there is one, else the error of the fetch.
abbrev pub stale_or : Option KeyCache → Option Str → AuthError → Result AuthError Jwk
unfolding find_key
stale_or none kid e = err e
stale_or (some c) kid e = or_unknown_kid kid (find_key c.keys kid)

-- The fetch's outcome, with the cache that it leaves; `now` is read after it.
unfoldable pub on_fetch :
    Duration
    → ℕ
    → Option KeyCache
    → Option Str
    → Result AuthError (List Jwk)
    → Result AuthError Jwk × Option KeyCache
unfolding str_eq find_key
on_fetch ttl now cache kid (ok keys) = (
  or_unknown_kid kid (find (λ k. same_id k.key_id kid) keys),
  some (record { keys = keys; fetched_at = now; ttl = ttl }),
)
on_fetch ttl now cache kid (err e) = (stale_or cache kid e, cache)

-- What one call meets: the cache and the clock under the read lock, then both under the write lock,
-- the outcome of the fetch, and the clock after it.
pub record Meets : Type 0 where
  pub read_cache : Option KeyCache
  pub read_at : ℕ
  pub write_cache : Option KeyCache
  pub write_at : ℕ
  pub fetched : Result AuthError (List Jwk)
  pub fetched_at : ℕ

-- An early return under a lock, with the cache as it is then.
abbrev pub return_or :
    Option (Result AuthError Jwk)
    → Option KeyCache
    → Result AuthError Jwk × Option KeyCache
    → Result AuthError Jwk × Option KeyCache
return_or none cache rest = rest
return_or (some answer) cache rest = (answer, cache)

-- The key, and the cache when the lock is given back.
unfoldable pub get_key : JwtConfig → Meets → Option Str → Result AuthError Jwk × Option KeyCache
unfolding from_cache on_fetch
get_key cfg w kid = return_or (from_cache w.read_at w.read_cache kid) w.read_cache (
    return_or (from_cache w.write_at w.write_cache kid) w.write_cache
      (on_fetch cfg.jwks_cache_ttl w.fetched_at w.write_cache kid w.fetched))

-- What the file uses of jsonwebtoken. `Algorithm` has the three HMAC algorithms, which `is_hs` tells,
-- RS256, and others.
pub record TokenApi (Value : Type 0) : Type 1 where
  pub Algorithm : Type 0
  pub rs256 : Algorithm
  pub is_hs : Algorithm → Bool
  pub DecodingKey : Type 0
  -- The algorithm and the `kid` of a token's header.
  pub decode_header : Str → Result Str (Algorithm × Option Str)
  pub from_rsa_components : Str → Str → Result Str DecodingKey
  pub from_ec_components : Str → Str → Result Str DecodingKey
  -- The token, the key, and the validation: its algorithm, audience and issuers, and whether `exp`
  -- and `nbf` are checked.
  pub decode :
      Str → DecodingKey → Algorithm × List Str × List Str × Bool × Bool → Result Str (Claims Value)

module _ (h : HeaderApi) where
  unfoldable pub extract_bearer : h.HeaderMap → Result AuthError Str
  unfolding strip_prefix
  extract_bearer headers = do
    header ← ok_or (h.get headers (codes "authorization")) missing_token
    value ← ok_or (h.to_str header) missing_token
    ok_or (strip_prefix (codes "Bearer ") value) missing_token

module _ {Value : Type 0} (t : TokenApi Value) where
  abbrev pub Validation : Type 0
  Validation = t.Algorithm × List Str × List Str × Bool × Bool

  unfoldable pub build_validation : JwtConfig → t.Algorithm → Validation
  build_validation cfg alg =
      (if t.is_hs alg then t.rs256 else alg, cfg.audience, cfg.issuers, true, true)

  -- A component of the key, or the error that names it.
  abbrev pub part : Option Str → Str → Result AuthError Str
  part o missing = ok_or o (invalid_token missing)

  abbrev pub rsa_key : Jwk → Result AuthError t.DecodingKey
  rsa_key jwk = do
    n ← part jwk.n (codes "RSA JWK missing `n`")
    e ← part jwk.e (codes "RSA JWK missing `e`")
    map_err (λ m. invalid_token (codes "RSA key error: " ++ m)) (t.from_rsa_components n e)

  abbrev pub ec_key : Jwk → Result AuthError t.DecodingKey
  ec_key jwk = do
    x ← part jwk.x (codes "EC JWK missing `x`")
    y ← part jwk.y (codes "EC JWK missing `y`")
    map_err (λ m. invalid_token (codes "EC key error: " ++ m)) (t.from_ec_components x y)

  unfoldable pub jwk_to_decoding_key : Jwk → Result AuthError t.DecodingKey
  unfolding str_eq
  jwk_to_decoding_key jwk =
      if str_eq jwk.key_type (codes "RSA")
      then rsa_key jwk
      else if str_eq jwk.key_type (codes "EC")
      then ec_key jwk
      else err (invalid_token (codes "unsupported key type: " ++ jwk.key_type))

  -- The token under the key that `get_key` gave.
  unfoldable pub check_token :
      JwtConfig → Str → t.Algorithm → Result AuthError Jwk → Result AuthError (Claims Value)
  unfolding jwk_to_decoding_key build_validation
  check_token cfg token alg key = do
    jwk ← key
    decoding_key ← jwk_to_decoding_key jwk
    map_err invalid_token (t.decode token decoding_key (build_validation cfg alg))

  unfoldable pub on_header :
      JwtConfig
      → Meets
      → Str
      → Result Str (t.Algorithm × Option Str)
      → Result AuthError (Claims Value) × Option KeyCache
  unfolding get_key check_token
  on_header cfg w token (err m) =
      (err (invalid_token (codes "malformed header: " ++ m)), w.read_cache)
  on_header cfg w token (ok (alg, kid)) =
      (check_token cfg token alg (get_key cfg w kid).0, (get_key cfg w kid).1)

  -- The result, with the cache of keys afterwards.
  unfoldable pub validate_token :
      JwtConfig → Meets → Str → Result AuthError (Claims Value) × Option KeyCache
  unfolding on_header
  validate_token cfg w token = on_header cfg w token (t.decode_header token)

  unfoldable pub on_bearer :
      JwtConfig → Meets → Result AuthError Str → Result AuthError (Claims Value) × Option KeyCache
  unfolding validate_token
  on_bearer cfg w (err e) = (err e, w.read_cache)
  on_bearer cfg w (ok token) = validate_token cfg w token

module _ (h : HeaderApi) {Value : Type 0} (t : TokenApi Value) where
  unfoldable pub verify :
      JwtConfig → Meets → h.HeaderMap → Result AuthError (Claims Value) × Option KeyCache
  unfolding extract_bearer on_bearer
  verify cfg w headers = on_bearer t cfg w (extract_bearer h headers)
