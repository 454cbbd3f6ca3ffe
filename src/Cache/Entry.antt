-- ===== src/Cache/Entry.antt =====
-- crates/gateway-cache/src/entry.rs: a stored response. The clock's reading in seconds is the
-- argument `now`; the text of the `Age` header is its number.
use stateform.Prelude.{ℕ, ◌-◌, Bool, List, leb}
use stateform.Prelude.Text.{Str}
use stateform.Config.Schema.{Duration}
use stateform.Cache.Control.{as_secs}

pub record CachedResponse : Type 0 where
  pub status : ℕ
  pub headers : List (Str × Str)
  pub body : List ℕ
  pub ttl_secs : ℕ
  pub stored_at_secs : ℕ
  pub vary_headers : List Str

unfoldable pub new : ℕ → ℕ → List (Str × Str) → List ℕ → Duration → List Str → CachedResponse
new now status headers body ttl vary_headers = record {
  status = status;
  headers = headers;
  body = body;
  ttl_secs = as_secs ttl;
  stored_at_secs = now;
  vary_headers = vary_headers;
}

unfoldable pub age_header : ℕ → CachedResponse → ℕ
age_header now e = now - e.stored_at_secs

unfoldable pub is_expired : ℕ → CachedResponse → Bool
is_expired now e = leb e.ttl_secs (now - e.stored_at_secs)
