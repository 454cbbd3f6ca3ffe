-- ===== src/Cache/Control.antt =====
-- crates/gateway-cache/src/control.rs: the directives of `Cache-Control` and `Vary`. A `Duration` is
-- its nanoseconds.
pub mod Directive
pub mod Directives
pub mod Ttl
use stateform.Prelude.{
  ℕ, ◌*◌, ◌/◌, min, Bool, true, false, not, ◌||◌, ◌&&◌, Option, none, some, List, [], ◌∷◌, map,
  keep, if◌then◌else◌,
}
use stateform.Prelude.Text.{
  Str, codes, str_eq, to_ascii_lowercase, trim, split, strip_prefix, parse_u64, is_empty,
}
use stateform.Config.Schema.{Duration}
use stateform.Http.{HeaderApi}

pub record CacheControl : Type 0 where
  pub no_store : Bool
  pub no_cache : Bool
  pub private_ : Bool
  pub max_age : Option ℕ
  pub s_maxage : Option ℕ

abbrev pub default : CacheControl
default = record {
  no_store = false;
  no_cache = false;
  private_ = false;
  max_age = none;
  s_maxage = none;
}

unfoldable pub parse_delta_seconds : Str → Str → Option ℕ
unfolding strip_prefix parse_u64
parse_delta_seconds directive prefix = elim (strip_prefix prefix directive) [
  | none ↦ none
  | some v ↦ parse_u64 v
]

-- The last arm of the `match` in `parse`.
abbrev pub set_age : Option ℕ → Option ℕ → CacheControl → CacheControl
set_age (some secs) shared cc = record cc { max_age = some secs }
set_age none (some secs) cc = record cc { s_maxage = some secs }
set_age none none cc = cc

-- One round of the loop of `parse`, on the trimmed directive in lower case.
unfoldable pub apply_directive : Str → CacheControl → CacheControl
unfolding str_eq parse_delta_seconds
apply_directive directive cc =
    if str_eq directive (codes "no-store")
    then record cc { no_store = true }
    else if str_eq directive (codes "no-cache")
    then record cc { no_cache = true }
    else if str_eq directive (codes "private")
    then record cc { private_ = true }
    else if str_eq directive (codes "public")
    then cc
    else set_age (parse_delta_seconds directive (codes "max-age="))
        (parse_delta_seconds directive (codes "s-maxage=")) cc

unfoldable pub apply_directives : List Str → CacheControl → CacheControl
unfolding apply_directive
apply_directives [] cc = cc
apply_directives (d ∷ ds) cc = apply_directives ds (apply_directive d cc)

-- The directives of a header value, trimmed and in lower case.
abbrev pub directives : Str → List Str
directives value = map (λ d. to_ascii_lowercase (trim d)) (split b',' value)

-- `CacheControl::parse`
unfoldable pub parse : Str → CacheControl
unfolding split trim apply_directives
parse value = apply_directives (directives value) default

unfoldable pub is_uncacheable : CacheControl → Bool
is_uncacheable cc = cc.no_store || cc.no_cache

abbrev pub from_secs : ℕ → Duration
from_secs secs = secs * 1_000_000_000

abbrev pub as_secs : Duration → ℕ
as_secs d = d / 1_000_000_000

abbrev pub or_else : Option ℕ → Option ℕ → Option ℕ
or_else (some a) o = some a
or_else none o = o

abbrev pub map_secs : Option ℕ → Option Duration
map_secs none = none
map_secs (some secs) = some (from_secs secs)

unfoldable pub shared_ttl : CacheControl → Option Duration
shared_ttl cc = map_secs (or_else cc.s_maxage cc.max_age)

unfoldable pub private_ttl : CacheControl → Option Duration
private_ttl cc = map_secs cc.max_age

unfoldable pub resolve_ttl : Option CacheControl → Duration → Option Duration
unfolding is_uncacheable shared_ttl
resolve_ttl none route_ttl = some route_ttl
resolve_ttl (some cc) route_ttl = if is_uncacheable cc then none else elim (shared_ttl cc) [
  | none ↦ some route_ttl
  | some upstream_ttl ↦ some (min upstream_ttl route_ttl)
]

module _ (h : HeaderApi) where
  -- The text of a header, when it is present and printable.
  abbrev pub header_text : h.HeaderMap → Str → Option Str
  header_text headers name = elim (h.get headers name) [ none ↦ none | some v ↦ h.to_str v ]

  unfoldable pub from_headers : h.HeaderMap → Option CacheControl
  unfolding parse
  from_headers headers = elim (header_text headers (codes "cache-control")) [
    | none ↦ none
    | some text ↦ some (parse text)
  ]

  abbrev pub vary_names : Str → List Str
  vary_names vary = keep (λ s. not (is_empty s)) (directives vary)

  unfoldable pub parse_vary : h.HeaderMap → Option (List Str)
  unfolding str_eq trim split
  parse_vary headers = elim (header_text headers (codes "vary")) [
    | none ↦ none
    | some vary ↦ if str_eq (trim vary) (codes "*") then none else some (vary_names vary)
  ]
