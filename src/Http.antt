-- ===== src/Http.antt =====
-- What the gateway uses of the crates `http` and `regex`, whose code is not in the repository: the
-- operations are the parameters of the modules that call them.
use stateform.Prelude.{Bool, List, Option}
use stateform.Prelude.Text.{Str}

-- `http::HeaderMap` as it is read: `get`, `iter`, and `to_str` of a value, which fails on a value that is
-- not visible ASCII.
pub record HeaderApi : Type 1 where
  pub HeaderMap : Type 0
  pub HeaderValue : Type 0
  pub get : HeaderMap → Str → Option HeaderValue
  pub to_str : HeaderValue → Option Str
  pub iter : HeaderMap → List (Str × HeaderValue)

-- `regex::Regex`: `new` fails on an invalid pattern.
pub record RegexApi : Type 1 where
  pub Regex : Type 0
  pub Captures : Type 0
  pub new : Str → Option Regex
  pub is_match : Regex → Str → Bool
  pub captures : Regex → Str → Option Captures
  pub capture_names : Regex → List (Option Str)
  pub name : Captures → Str → Option Str

-- `http::HeaderMap` as it is changed, with `HeaderName::from_bytes` and `HeaderValue::from_str`, which
-- fail on a text that is no name or no value.
pub record HeaderEdit (h : HeaderApi) : Type 1 where
  pub HeaderName : Type 0
  pub from_bytes : Str → Option HeaderName
  pub from_str : Str → Option h.HeaderValue
  pub empty : h.HeaderMap
  pub insert : HeaderName → h.HeaderValue → h.HeaderMap → h.HeaderMap
  pub append : HeaderName → h.HeaderValue → h.HeaderMap → h.HeaderMap
  pub remove : Str → h.HeaderMap → h.HeaderMap
