-- ===== src/Gateway/Pipeline/Messages.antt =====
-- crates/gateway-core/src/pipeline.rs: the responses that it builds and the headers that it changes.
use stateform.Prelude.{ℕ, Bool, true, false, Option, none, some, List, [], ◌∷◌}
use stateform.Prelude.Text.{Str, codes, is_some, show_nat}
use stateform.Config.Schema.{HeaderMutations}
use stateform.Http.{HeaderApi, HeaderEdit}
use stateform.Cache.Entry.{CachedResponse, age_header}

-- `http::Request<Bytes>` and `http::Response<Full<Bytes>>`
pub record Request (h : HeaderApi) : Type 0 where
  pub method : Str
  pub path : Str
  pub query : Option Str
  pub headers : h.HeaderMap
  pub body : List ℕ

pub record HttpResponse (h : HeaderApi) : Type 0 where
  pub status : ℕ
  pub headers : h.HeaderMap
  pub body : List ℕ

module _ (h : HeaderApi) (e : HeaderEdit h) where
  -- `if let (Ok(name), Ok(val)) = ...` with `insert` or `append`.
  abbrev pub put_with :
      (e.HeaderName → h.HeaderValue → h.HeaderMap → h.HeaderMap)
      → Option e.HeaderName
      → Option h.HeaderValue
      → h.HeaderMap
      → h.HeaderMap
  put_with put none v m = m
  put_with put (some n) none m = m
  put_with put (some n) (some v) m = put n v m

  unfoldable pub with_headers : List (Str × Str) → h.HeaderMap → h.HeaderMap
  with_headers [] m = m
  with_headers ((k, v) ∷ entries) m =
      with_headers entries (put_with e.insert (e.from_bytes k) (e.from_str v) m)

  unfoldable pub append_headers : List (Str × Str) → h.HeaderMap → h.HeaderMap
  append_headers [] m = m
  append_headers ((k, v) ∷ entries) m =
      append_headers entries (put_with e.append (e.from_bytes k) (e.from_str v) m)

  -- The headers that the gateway adds, unless the name is there already.
  abbrev pub add_unless : Bool → Option h.HeaderValue → h.HeaderMap → h.HeaderMap
  add_unless true v m = m
  add_unless false v m = put_with e.insert (e.from_bytes (codes "x-request-id")) v m

  unfoldable pub inject_request_id : Str → h.HeaderMap → h.HeaderMap
  inject_request_id id m = add_unless (is_some (h.get m (codes "x-request-id"))) (e.from_str id) m

  unfoldable pub error_response : (Str → Str) → ℕ → Str → Str → HttpResponse h
  unfolding append_headers inject_request_id
  error_response json status message request_id = record {
    status = status;
    headers =
        inject_request_id request_id
          (append_headers ((codes "content-type", codes "application/json") ∷ []) e.empty);
    body = json message;
  }

  unfoldable pub build_cached_response : ℕ → CachedResponse → HttpResponse h
  unfolding append_headers age_header
  build_cached_response now cached = record {
    status = cached.status;
    headers =
        append_headers
          ((codes "X-Cache", codes "HIT")
            ∷ (codes "Age", show_nat (age_header now cached))
            ∷ cached.headers)
          e.empty;
    body = cached.body;
  }

  unfoldable pub build_upstream_response : HeaderMutations → HttpResponse h → HttpResponse h
  unfolding with_headers
  build_upstream_response mutations resp = record resp {
    headers =
        with_headers ((codes "X-Cache", codes "MISS") ∷ [])
          (with_headers mutations.response_set resp.headers);
  }

  unfoldable pub without : List Str → h.HeaderMap → h.HeaderMap
  without [] m = m
  without (name ∷ names) m = without names (e.remove name m)

  unfoldable pub apply_request_mutations : HeaderMutations → Request h → Request h
  unfolding with_headers without
  apply_request_mutations mutations req = record req {
    headers = with_headers mutations.request_set (without mutations.request_remove req.headers);
  }
