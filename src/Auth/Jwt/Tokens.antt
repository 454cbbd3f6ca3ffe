-- ===== src/Auth/Jwt/Tokens.antt =====
-- crates/gateway-auth/src/jwt.rs: where the claims of an accepted token come from.
use stateform.Prelude.{
  ◌≡◌, refl, sym, ap, subst, ◌∙◌, Bool, true, false, Option, none, some, List, [], ◌∷◌, Memᴰ, find,
  ◌⊎◌, inl, inr, if◌then◌else◌, Bool-cases,
}
use stateform.Prelude.Text.{Str}
use stateform.Config.Schema.{JwtConfig}
use stateform.Http.{HeaderApi}
use stateform.Auth.Context.{Claims}
use stateform.Auth.Error.{
  AuthError, Result, ok, err, ok_or-ok, bind-ok, map_err-ok, Result-cases, invalid_token,
}
use stateform.Auth.Jwt.{
  Jwk, KeyCache, Meets, find_key, same_id, get_key, stale_or, TokenApi, build_validation,
  extract_bearer, on_bearer, on_header, jwk_to_decoding_key, check_token, validate_token, verify,
}
use stateform.Auth.Jwt.Keys.{held, Way, get_key_cases}

-- The keys that a call can have: of the caches that it meets, and the fetched ones.
abbrev pub cached_keys : Option KeyCache → List Jwk
cached_keys none = []
cached_keys (some c) = c.keys

abbrev pub fetched_keys : Result AuthError (List Jwk) → List Jwk
fetched_keys (ok keys) = keys
fetched_keys (err e) = []

abbrev pub Known : Meets → Jwk → Type 0
Known w k =
    Memᴰ k (cached_keys w.read_cache)
    ⊎ (Memᴰ k (cached_keys w.write_cache) ⊎ Memᴰ k (fetched_keys w.fetched))

Memᴰ-find : (p : Jwk → Bool) (keys : List Jwk) {k : Jwk} → find p keys ≡ some k → Memᴰ k keys
Memᴰ-find p [] h = absurd (cc)
Memᴰ-find p (j ∷ keys) {k} h = elim (Bool-cases (p j)) [
  | inl hit ↦ Memᴰ.head (here (sym (ap (λ b. if b then some j else find p keys) hit) ∙ h))
  | inr miss ↦
      Memᴰ.tail (Memᴰ-find p keys (sym (ap (λ b. if b then some j else find p keys) miss) ∙ h))
]
  where
    here : some j ≡ some k → k ≡ j
    here e = cc

Memᴰ-find_key :
    (keys : List Jwk) (kid : Option Str) {k : Jwk} → find_key keys kid ≡ some k → Memᴰ k keys
unfolding find_key
Memᴰ-find_key keys (some kid) h = Memᴰ-find (λ k. same_id k.key_id (some kid)) keys h
Memᴰ-find_key [] none h = absurd (cc)
Memᴰ-find_key (j ∷ keys) none h = Memᴰ.head (cc)

Memᴰ-held :
    (cache : Option KeyCache) (c : KeyCache) (kid : Option Str) {k : Jwk}
    → cache ≡ some c
    → held c kid ≡ ok k
    → Memᴰ k (cached_keys cache)
unfolding find_key
Memᴰ-held cache c kid {k} there h =
    subst (λ o. Memᴰ k (cached_keys o)) (sym there)
      (Memᴰ-find_key c.keys kid (ok_or-ok (find_key c.keys kid) _ h))

Memᴰ-stale :
    (cache : Option KeyCache) (kid : Option Str) (e : AuthError) {k : Jwk}
    → stale_or cache kid e ≡ ok k
    → Memᴰ k (cached_keys cache)
unfolding find_key
Memᴰ-stale none kid e h = absurd (cc)
Memᴰ-stale (some c) kid e h = Memᴰ-find_key c.keys kid (ok_or-ok (find_key c.keys kid) _ h)

get_key-Known :
    (cfg : JwtConfig) (w : Meets) (kid : Option Str) {k : Jwk}
    → (get_key cfg w kid).0 ≡ ok k
    → Known w k
get_key-Known cfg w kid {k} h = elim (get_key_cases cfg w kid) [
  | Way.by_read c there way ↦ inl (Memᴰ-held w.read_cache c kid there (sym (ap (λ r. r.0) way) ∙ h))
  | Way.by_write c there way ↦
      inr (inl (Memᴰ-held w.write_cache c kid there (sym (ap (λ r. r.0) way) ∙ h)))
  | Way.by_fetch keys fetched way ↦
      let found =
        ok_or-ok (find (λ k. same_id k.key_id kid) keys) _ (sym (ap (λ r. r.0) way) ∙ h) in
      inr (
        inr (
          subst (λ o. Memᴰ k (fetched_keys o)) (sym fetched)
            (Memᴰ-find (λ k. same_id k.key_id kid) keys found)))
  | Way.by_stale e failed way ↦
      inr (inl (Memᴰ-stale w.write_cache kid e (sym (ap (λ r. r.0) way) ∙ h)))
]

module _ (h : HeaderApi) {Value : Type 0} (t : TokenApi Value) where
  -- What stands behind the claims of an accepted token.
  pub record Decoded (cfg : JwtConfig) (w : Meets) (headers : h.HeaderMap) (claims : Claims Value)
      : Type 0 where
    pub token : Str
    pub alg : t.Algorithm
    pub kid : Option Str
    pub jwk : Jwk
    pub key : t.DecodingKey
    pub bearer : extract_bearer h headers ≡ ok token
    pub header : t.decode_header token ≡ ok (alg, kid)
    pub known : Known w jwk
    pub key_of : jwk_to_decoding_key t jwk ≡ ok key
    pub decoded : t.decode token key (build_validation t cfg alg) ≡ ok claims
    pub audience : (build_validation t cfg alg).1 ≡ cfg.audience
    pub issuers : (build_validation t cfg alg).2 ≡ cfg.issuers
    pub expiry : (build_validation t cfg alg).3 ≡ true
    pub not_before : (build_validation t cfg alg).4 ≡ true
    pub asymmetric : t.is_hs (build_validation t cfg alg).0 ≡ false

  build_validation-asymmetric :
      t.is_hs t.rs256 ≡ false
      → (cfg : JwtConfig) (alg : t.Algorithm) → t.is_hs (build_validation t cfg alg).0 ≡ false
  unfolding build_validation
  build_validation-asymmetric law cfg alg = go (t.is_hs alg) refl
    where
      go : (b : Bool) → t.is_hs alg ≡ b → t.is_hs (if b then t.rs256 else alg) ≡ false
      go true same = law
      go false same = same

  -- Where RS256 is no HMAC algorithm, the claims of an accepted request are what decode gives
  -- for its bearer token under a key of the key set, cached or just fetched, with the
  -- configured audience and issuers, with exp and nbf checked, and with an algorithm that is
  -- not HMAC whatever the token's header says.
  pub verify-Decoded :
      t.is_hs t.rs256 ≡ false
      → (cfg : JwtConfig) (w : Meets) (headers : h.HeaderMap) {claims : Claims Value}
      → (verify h t cfg w headers).0 ≡ ok claims
      → Decoded cfg w headers claims
  unfolding verify validate_token check_token build_validation on_header on_bearer
  verify-Decoded law cfg w headers {claims} accepted =
      elim (Result-cases (extract_bearer h headers)) [
        | inr (e, missing) ↦
            let refused = sym (ap (λ r. (on_bearer t cfg w r).0) missing) ∙ accepted in absurd (cc)
        | inl (token, bearer) ↦
            let valid = sym (ap (λ r. (on_bearer t cfg w r).0) bearer) ∙ accepted in
            elim (Result-cases (t.decode_header token)) [
              | inr (m, malformed) ↦
                  let refused = sym (ap (λ r. (on_header t cfg w token r).0) malformed) ∙ valid in
                  absurd (cc)
              | inl ((alg, kid), header) ↦
                  let checked = sym (ap (λ r. (on_header t cfg w token r).0) header) ∙ valid in
                  let (jwk, has_jwk, rest) = bind-ok (get_key cfg w kid).0 _ checked in
                  let (key, has_key, read) = bind-ok (jwk_to_decoding_key t jwk) _ rest in
                  record {
                    token = token;
                    alg = alg;
                    kid = kid;
                    jwk = jwk;
                    key = key;
                    bearer = bearer;
                    header = header;
                    known = get_key-Known cfg w kid has_jwk;
                    key_of = has_key;
                    decoded =
                        map_err-ok invalid_token (t.decode token key (build_validation t cfg alg))
                          read;
                    audience = refl;
                    issuers = refl;
                    expiry = refl;
                    not_before = refl;
                    asymmetric = build_validation-asymmetric law cfg alg;
                  }
            ]
      ]
