-- ===== src/Gateway/Server.antt =====
-- crates/gateway-core/src/server.rs: what the service of a connection does with a request before it
-- gives it to `handle`: the limit on its body and its id. hyper's connections and `Limited`, which
-- collects a body, are not in the repository: what the collection gives is an argument.
use stateform.Prelude.{
  ℕ, ◌<◌, Bool-cases, ◌≤◌, ◌≡◌, ◌⊎◌, refl, inl, inr, ◌||◌, ltb, Bool, true, false, Option, none,
  some, List, [], ◌∷◌, arith,
}
use stateform.Prelude.Text.{Str, codes, contains, parse_u64, to_ascii_lowercase}
use stateform.Http.{HeaderApi, HeaderEdit}
use stateform.Gateway.Pipeline.{header_text, Stages, handle}
use stateform.Gateway.Pipeline.Messages.{Request, HttpResponse, append_headers, inject_request_id}
use stateform.Gateway.Pipeline.Ids.{HasId, IdLaws, inject-HasId}

-- `Limited::new(body, max).collect().await`: the bytes, or the text of an error.
pub data Collected : Type 0 where
  bytes : List ℕ → Collected
  failed : Str → Collected

-- A refusal at the limit, and no bytes on another error.
abbrev pub unless_limit : Bool → Option (List ℕ)
unless_limit true = none
unless_limit false = some []

-- The text of an error is that of the limit.
abbrev pub at_limit : Str → Bool
unfolding contains
at_limit e =
    contains (to_ascii_lowercase e) (codes "length limit")
    || contains (to_ascii_lowercase e) (codes "limit exceeded")

-- What comes of a body: its bytes, or a refusal. An error that is not the limit's leaves no bytes.
unfoldable pub body_of : Collected → Option (List ℕ)
unfolding contains
body_of (bytes b) = some b
body_of (failed e) = unless_limit (at_limit e)

module _ (h : HeaderApi) (e : HeaderEdit h) where
  unfoldable pub payload_too_large : (Str → Str) → HttpResponse h
  unfolding append_headers
  payload_too_large json = record {
    status = 413;
    headers = append_headers h e ((codes "content-type", codes "application/json") ∷ []) e.empty;
    body = json (codes "request body too large");
  }

  -- `Content-Length`, where it is there and a number.
  abbrev pub parsed : Option Str → Option ℕ
  unfolding parse_u64
  parsed none = none
  parsed (some s) = parse_u64 s

  abbrev pub exceeds : ℕ → Option ℕ → Bool
  exceeds max_body none = false
  exceeds max_body (some len) = ltb max_body len

module _ (h : HeaderApi) (e : HeaderEdit h) (Value : Type 0) (s : Stages h Value) where
  -- The request with its body and its id.
  unfoldable pub with_body : Str → Request h → List ℕ → Request h
  unfolding inject_request_id
  with_body uuid req body = record req {
    headers = inject_request_id h e uuid req.headers;
    body = body;
  }

  unfoldable pub on_body :
      Str → Request h → s.Extensions → Option (List ℕ) → s.W → HttpResponse h × s.W
  unfolding with_body payload_too_large handle
  on_body uuid req x none w = (payload_too_large h e s.json, w)
  on_body uuid req x (some body) w = handle h e Value s (with_body uuid req body) x w

  unfoldable pub on_length :
      Str → Request h → s.Extensions → Collected → Bool → s.W → HttpResponse h × s.W
  unfolding on_body body_of payload_too_large
  on_length uuid req x body true w = (payload_too_large h e s.json, w)
  on_length uuid req x body false w = on_body uuid req x (body_of body) w

  -- The closure of `service_fn`.
  unfoldable pub serve : ℕ → Str → Request h → s.Extensions → Collected → s.W → HttpResponse h × s.W
  unfolding on_length parsed
  serve max_body uuid req x body w =
      let len = parsed h e (header_text h req.headers (codes "content-length")) in
      on_length uuid req x body (exceeds h e max_body len) w

  -- What a request declares as its length.
  abbrev pub declared : Request h → Option ℕ
  declared req = parsed h e (header_text h req.headers (codes "content-length"))

  -- A request is too large by what it declares or by what the collection of its body meets.
  pub data Oversize (max_body : ℕ) (req : Request h) : Collected → Type 0 where
    by_length :
        {body : Collected} (len : ℕ)
        → declared req ≡ some len
        → max_body < len
        → Oversize max_body req body
    by_body : (er : Str) → at_limit er ≡ true → Oversize max_body req (failed er)

  -- The body that a request is handled with: what was collected, or nothing after another error.
  pub data BodyIs (b : List ℕ) : Collected → Type 0 where
    collected : BodyIs b (bytes b)
    lost : (er : Str) → at_limit er ≡ false → b ≡ [] → BodyIs b (failed er)

  -- The request that `handle` is given, from the one that came.
  pub record Forwarded (max_body : ℕ) (uuid : Str) (req : Request h) (body : Collected)
      (r : Request h) : Type 0 where
    pub declares :
        (declared req ≡ none) ⊎ ((len : ℕ) × (declared req ≡ some len) × (len ≤ max_body))
    pub same_method : r.method ≡ req.method
    pub same_path : r.path ≡ req.path
    pub same_query : r.query ≡ req.query
    pub its_headers : r.headers ≡ inject_request_id h e uuid req.headers
    pub its_body : BodyIs r.body body
    pub its_id : HasId h r.headers

  abbrev pub Served :
      ℕ → Str → Request h → s.Extensions → Collected → s.W → HttpResponse h × s.W → Type 0
  Served max_body uuid req x body w answer =
      (Oversize max_body req body × (answer ≡ (payload_too_large h e s.json, w)))
      ⊎ ((r : Request h) × Forwarded max_body uuid req body r × (answer ≡ handle h e Value s r x w))

  module _ (laws : IdLaws h e) (max_body : ℕ) (uuid : Str) (v : h.HeaderValue) (req : Request h)
      (x : s.Extensions) (w : s.W) (valid : e.from_str uuid ≡ some v) where
    abbrev Declares : Type 0
    Declares = (declared req ≡ none) ⊎ ((len : ℕ) × (declared req ≡ some len) × (len ≤ max_body))

    on_body-Served :
        (body : Collected)
        → Declares
        → Served max_body uuid req x body w (on_body uuid req x (body_of body) w)
    unfolding on_body with_body body_of
    on_body-Served (bytes b) fits = inr (
      with_body uuid req b,
      record {
        declares = fits;
        same_method = refl;
        same_path = refl;
        same_query = refl;
        its_headers = refl;
        its_body = BodyIs.collected;
        its_id = inject-HasId h e laws uuid v req.headers valid;
      },
      refl,
    )
    on_body-Served (failed er) fits = elim (Bool-cases (at_limit er)) [
      | inl over ↦ inl (Oversize.by_body er over, rw over refl)
      | inr other ↦ inr (
        with_body uuid req [],
        record {
          declares = fits;
          same_method = refl;
          same_path = refl;
          same_query = refl;
          its_headers = refl;
          its_body = BodyIs.lost er other refl;
          its_id = inject-HasId h e laws uuid v req.headers valid;
        },
        rw other refl,
      )
    ]

    on_length-Served :
        (body : Collected) (len : Option ℕ)
        → declared req ≡ len
        → Served max_body uuid req x body w (on_length uuid req x body (exceeds h e max_body len) w)
    unfolding on_length
    on_length-Served body none d = on_body-Served body (inl d)
    on_length-Served body (some len) d = elim (Bool-cases (ltb max_body len)) [
      | inl over ↦ rw over (inl (Oversize.by_length len d (ground arith), refl))
      | inr within ↦ rw within (on_body-Served body (inr (len, d, ground arith)))
    ]

  -- Where the generated id can stand in a header, a request is refused with payload_too_large,
  -- and the shared state left as it was, only if it declares a length above the maximum or the
  -- collection of its body meets the limit. Any other is answered as handle answers the request
  -- with the same method, path and query, with its headers and an x-request-id, which its own
  -- is if it has one, and with the body that was collected, or an empty one after another
  -- error.
  pub serve-Served :
      (laws : IdLaws h e) (max_body : ℕ) (uuid : Str) (v : h.HeaderValue) (req : Request h)
      (x : s.Extensions) (body : Collected) (w : s.W)
      → e.from_str uuid ≡ some v
      → Served max_body uuid req x body w (serve max_body uuid req x body w)
  unfolding serve
  serve-Served laws max_body uuid v req x body w valid =
      on_length-Served laws max_body uuid v req x w valid body (declared req) refl
