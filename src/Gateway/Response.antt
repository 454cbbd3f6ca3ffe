-- ===== src/Gateway/Response.antt =====
-- crates/gateway-core/src: the responses that the gateway makes itself. `serde_json::json!` with
-- `to_string`, which writes the body of an error, is a parameter.
use stateform.Prelude.{ℕ, List, [], ◌∷◌}
use stateform.Prelude.Text.{Str, codes}

-- `http::Response<Full<Bytes>>`
pub record Response : Type 0 where
  pub status : ℕ
  pub headers : List (Str × Str)
  pub body : Str

-- `serde_json::json!({ "error": msg }).to_string()`
abbrev pub ErrorJson : Type 0
ErrorJson = Str → Str

-- concurrency.rs
unfoldable pub service_unavailable : ErrorJson → Str → Response
service_unavailable json msg = record {
  status = 503;
  headers =
      (codes "content-type", codes "application/json") ∷ (codes "Retry-After", codes "1") ∷ [];
  body = json msg;
}
