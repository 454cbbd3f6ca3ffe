-- ===== src/Cache/Key.antt =====
-- crates/gateway-cache/src/key.rs: the key of a request, its extension by the values of the headers
-- that the response varies on, and the headers that may be stored. `sort_by`, which is stable, is an
-- insertion sort.
pub mod Laws
use stateform.Prelude.{
  ℕ, Bool, true, false, not, Option, none, some, List, [], ◌∷◌, ◌++◌, map, any, if◌then◌else◌,
}
use stateform.Prelude.Text.{
  Str, codes, str_eq, str_ltb, to_ascii_lowercase, to_ascii_uppercase, is_empty,
}
use stateform.Http.{HeaderApi}
use stateform.Cache.Control.{header_text}

abbrev pub path_query : Str → Option Str → Str
path_query path none = path
path_query path (some q) = if is_empty q then path else path ++ codes "?" ++ q

-- `CacheKey::new`
unfoldable pub new : Str → Str → Str → Option Str → Str
new method route_id path query =
    codes "stateform:cache:"
    ++ to_ascii_uppercase method
    ++ codes ":"
    ++ route_id
    ++ codes ":"
    ++ path_query path query

-- A pair goes before the pairs whose names are not smaller.
unfoldable pub insert_pair : Str × Str → List (Str × Str) → List (Str × Str)
unfolding str_ltb
insert_pair a [] = a ∷ []
insert_pair a (b ∷ pairs) = if str_ltb b.0 a.0 then b ∷ insert_pair a pairs else a ∷ b ∷ pairs

unfoldable pub sort_pairs : List (Str × Str) → List (Str × Str)
unfolding insert_pair
sort_pairs [] = []
sort_pairs (a ∷ pairs) = insert_pair a (sort_pairs pairs)

-- The pairs written out, `:name=value` each.
unfoldable pub vary_suffix : List (Str × Str) → Str
vary_suffix [] = []
vary_suffix ((k, v) ∷ pairs) = codes ":" ++ k ++ codes "=" ++ v ++ vary_suffix pairs

abbrev pub text_or_empty : Option Str → Str
text_or_empty none = []
text_or_empty (some text) = text

abbrev pub hop_by_hop : List Str
hop_by_hop =
    codes "connection"
    ∷ codes "keep-alive"
    ∷ codes "proxy-authenticate"
    ∷ codes "proxy-authorization"
    ∷ codes "te"
    ∷ codes "trailers"
    ∷ codes "transfer-encoding"
    ∷ codes "upgrade"
    ∷ []

abbrev pub is_hop_by_hop : Str → Bool
is_hop_by_hop name = any (λ n. str_eq n name) hop_by_hop

module _ (h : HeaderApi) where
  abbrev pub pair_of : h.HeaderMap → Str → Str × Str
  pair_of request_headers name = (name, text_or_empty (header_text h request_headers name))

  unfoldable pub with_vary : Str → List Str → h.HeaderMap → Str
  unfolding sort_pairs vary_suffix
  with_vary key [] request_headers = key
  with_vary key (name ∷ names) request_headers =
      key ++ vary_suffix (sort_pairs (map (pair_of request_headers) (name ∷ names)))

  unfoldable pub storable : List (Str × h.HeaderValue) → List (Str × Str)
  unfolding str_eq
  storable [] = []
  storable ((name, value) ∷ rest) =
      let kept = storable rest in
      let name_str = to_ascii_lowercase name in
      if is_hop_by_hop name_str
      then kept
      else elim (h.to_str value) [ none ↦ kept | some v ↦ (name_str, v) ∷ kept ]

  abbrev pub storable_headers : h.HeaderMap → List (Str × Str)
  storable_headers headers = storable (h.iter headers)
