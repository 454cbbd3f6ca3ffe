-- ===== src/RateLimit/Key/Laws.antt =====
-- Which requests share a key of key.rs.
use mathlib.Core.List.{append_assoc}
use stateform.Prelude.{◌≡◌, sym, ap, ◌∙◌, ◌↔◌, Option, some, [], ◌∷◌, ◌++◌}
use stateform.Prelude.Text.{Str, codes}
use stateform.Http.{HeaderApi}
use stateform.Auth.Context.{AuthContext}
use stateform.RateLimit.Key.{identity, derive_key}

drop_prefix : (p s t : Str) → p ++ s ≡ p ++ t → s ≡ t
drop_prefix [] s t e = e
drop_prefix (c ∷ p) s t e = drop_prefix p s t (cc)

module _ (h : HeaderApi) (Value : Type 0) where
  -- On one route two requests share a rate-limit key exactly when their identities are equal,
  -- whether an identity is a subject or an address.
  pub derive_key-identity :
      (route_id : Str) (a b : Option (AuthContext Value)) (headers headers' : h.HeaderMap)
      → (derive_key h Value route_id a headers ≡ derive_key h Value route_id b headers')
        ↔ (identity h Value a headers ≡ identity h Value b headers')
  unfolding derive_key
  derive_key-identity route_id a b headers headers' =
      let prefix = codes "stateform:rl:" ++ route_id ++ codes ":" in
      (drop_prefix prefix _ _, ap (λ s. prefix ++ s))

  -- A subject that starts with a text and a colon has, on one route, the key that the rest of
  -- it has as a subject on the route whose id is the first one's with a colon and that text
  -- added.
  pub derive_key-shared :
      (route_id s t : Str) (a b : AuthContext Value) (headers headers' : h.HeaderMap)
      → a.subject ≡ s ++ codes ":" ++ t
      → b.subject ≡ t
      → derive_key h Value route_id (some a) headers
        ≡ derive_key h Value (route_id ++ codes ":" ++ s) (some b) headers'
  unfolding derive_key identity
  derive_key-shared route_id s t a b headers headers' ea eb =
      let prefix = codes "stateform:rl:" ++ route_id ++ codes ":" in
      ap (λ k. prefix ++ k) ea
      ∙ sym (append_assoc prefix (s ++ codes ":") t)
      ∙ ap (λ k. k ++ t) (sym (append_assoc prefix s (codes ":")))
      ∙ ap (λ k. prefix ++ s ++ codes ":" ++ k) (sym eb)
