-- ===== src/Router/Predicate.antt =====
-- crates/gateway-router/src/predicate.rs: the tests of a route's method and headers on a request.
-- A method is its text.
use stateform.Prelude.{
  ℕ, Bool, true, false, not, ◌||◌, Option, none, some, List, [], ◌∷◌, any, if◌then◌else◌, ◌==◌,
}
use stateform.Prelude.Text.{Str, eq_ignore_ascii_case, contains}
use stateform.Http.{HeaderApi, RegexApi}

-- `None` means any method is accepted.
unfoldable pub method_matches : Option Str → Str → Bool
method_matches none req_method = true
method_matches (some m) req_method = eq_ignore_ascii_case m req_method

abbrev pub is_metacharacter : ℕ → Bool
is_metacharacter c =
    c == b'.'
    || c == b'*'
    || c == b'+'
    || c == b'?'
    || c == b'('
    || c == b')'
    || c == b'['
    || c == b']'
    || c == b'{'
    || c == b'}'
    || c == b'^'
    || c == b'$'
    || c == b'|'
    || c == b'\\'

unfoldable pub is_plain_string : Str → Bool
is_plain_string s = not (any is_metacharacter s)

module _ (x : RegexApi) where
  unfoldable pub value_matches : Str → Str → Bool
  unfolding contains is_plain_string
  value_matches value pattern =
      if is_plain_string pattern
      then contains value pattern
      else elim (x.new pattern) [ none ↦ false | some re ↦ x.is_match re value ]

module _ (h : HeaderApi) (x : RegexApi) where
  -- One round of `headers_match`.
  unfoldable pub header_matches : h.HeaderMap → Str → Str → Bool
  unfolding value_matches
  header_matches req_headers name pattern = elim (h.get req_headers name) [
    | none ↦ false
    | some value ↦ elim (h.to_str value) [
      | none ↦ false
      | some value_str ↦ value_matches x value_str pattern
    ]
  ]

  unfoldable pub headers_match : List (Str × Str) → h.HeaderMap → Bool
  unfolding header_matches
  headers_match [] req_headers = true
  headers_match ((name, pattern) ∷ rest) req_headers =
      if header_matches req_headers name pattern then headers_match rest req_headers else false

  unfoldable pub matches_predicates : Option Str → List (Str × Str) → Str → h.HeaderMap → Bool
  unfolding method_matches headers_match
  matches_predicates route_method route_headers req_method req_headers =
      if not (method_matches route_method req_method)
      then false
      else if not (headers_match route_headers req_headers)
      then false
      else true
