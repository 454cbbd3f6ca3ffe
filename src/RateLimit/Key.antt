-- ===== src/RateLimit/Key.antt =====
-- crates/gateway-ratelimit/src/key.rs: the key under which the requests of an identity are counted.
pub mod Laws
use stateform.Prelude.{Bool, Option, none, some, List, [], ◌∷◌, ◌++◌, first, if◌then◌else◌}
use stateform.Prelude.Text.{Str, codes, trim, split, is_empty}
use stateform.Http.{HeaderApi}
use stateform.Auth.Context.{AuthContext}

-- `.map(str::trim).filter(|s| !s.is_empty())`
unfoldable pub trimmed : Option Str → Option Str
unfolding trim
trimmed none = none
trimmed (some s) = if is_empty (trim s) then none else some (trim s)

abbrev pub or_else : Option Str → Option Str → Option Str
or_else none o = o
or_else (some s) o = some s

abbrev pub or_anonymous : Option Str → Str
or_anonymous none = codes "anonymous"
or_anonymous (some s) = s

module _ (h : HeaderApi) (Value : Type 0) where
  abbrev pub header_text : h.HeaderMap → Str → Option Str
  header_text headers name = elim (h.get headers name) [ none ↦ none | some v ↦ h.to_str v ]

  abbrev pub first_hop : Option Str → Option Str
  first_hop none = none
  first_hop (some v) = first (split b',' v)

  unfoldable pub extract_forwarded_for : h.HeaderMap → Option Str
  unfolding trimmed split
  extract_forwarded_for headers =
      trimmed (first_hop (header_text headers (codes "x-forwarded-for")))

  unfoldable pub extract_real_ip : h.HeaderMap → Option Str
  unfolding trimmed
  extract_real_ip headers = trimmed (header_text headers (codes "x-real-ip"))

  abbrev pub subject_of : Option (AuthContext Value) → Option Str
  subject_of none = none
  subject_of (some ctx) = some ctx.subject

  -- The first of the subject, the forwarded address and the real address.
  unfoldable pub identity : Option (AuthContext Value) → h.HeaderMap → Str
  unfolding extract_forwarded_for extract_real_ip
  identity auth_ctx headers = or_anonymous (
      or_else (or_else (subject_of auth_ctx) (extract_forwarded_for headers))
        (extract_real_ip headers))

  unfoldable pub derive_key : Str → Option (AuthContext Value) → h.HeaderMap → Str
  unfolding identity
  derive_key route_id auth_ctx headers =
      codes "stateform:rl:" ++ route_id ++ codes ":" ++ identity auth_ctx headers
