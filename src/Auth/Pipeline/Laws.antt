-- ===== src/Auth/Pipeline/Laws.antt =====
-- crates/gateway-auth/src/pipeline.rs: what a request that passes has shown, and what a refused one
-- lacks.
use stateform.Prelude.{
  ◌≡◌, refl, sym, ap, subst, ◌∙◌, Bool, true, false, Option, none, some, List, [], ◌∷◌, ◌++◌, ◌⊎◌,
  not, ◌&&◌, inl, inr, Bool-cases,
}
use stateform.Prelude.Text.{Str}
use stateform.Config.Schema.{AuthMiddlewareConfig}
use stateform.Http.{HeaderApi}
use stateform.Auth.Context.{AuthContext, AuthMechanism, jwt, api_key, mtls, Claims, PeerIdentity}
use stateform.Auth.Error.{AuthError, Result, ok, err}
use stateform.Auth.Jwt as Jwt
use stateform.Auth.Jwt.{KeyCache, Meets, TokenApi}
use stateform.Auth.ApiKey as ApiKey
use stateform.Auth.ApiKey.{KeyStoreApi, ApiKeyProvider, ApiKeyRecord}
use stateform.Auth.Mtls as Mtls
use stateform.Auth.Mtls.{PeerCertificate}
use stateform.Auth.Pipeline.{
  AuthPipeline, Progress, start, context, jwt_block, api_key_block, mtls_block, run_blocks,
  all_disabled, run, or_anonymous, or_subject, subject_dn_of,
}

abbrev pub mechanism_if : Bool → AuthMechanism → List AuthMechanism
mechanism_if true m = m ∷ []
mechanism_if false m = []

-- An enabled provider passed and gave the value; a disabled one gives none.
abbrev pub Passed : {A : Type 0} → Bool → Result AuthError A → Option A → Type 0
Passed {A} true r o = (a : A) × (r ≡ ok a) × (o ≡ some a)
Passed false r o = o ≡ none

abbrev pub or_else : {A : Type 0} → Option A → Option A → Option A
or_else none o = o
or_else (some a) o = some a

abbrev pub flatten : {A : Type 0} → Option (Option A) → Option A
flatten none = none
flatten (some o) = o

abbrev pub subject_of : Option ApiKeyRecord → Option Str
subject_of none = none
subject_of (some r) = some r.subject

abbrev pub dn_of : Option PeerIdentity → Option Str
dn_of none = none
dn_of (some id) = some id.subject_dn

append_nil : (ms : List AuthMechanism) → ms ++ [] ≡ ms
append_nil [] = refl
append_nil (m ∷ ms) = ap (λ l. m ∷ l) (append_nil ms)

or_subject-or_else : (o : Option Str) (s : Str) → or_subject o s ≡ or_else o (some s)
or_subject-or_else none s = refl
or_subject-or_else (some first) s = refl

subject_dn_of-or_else :
    (o : Option Str) (id : Option PeerIdentity) → subject_dn_of o id ≡ or_else o (dn_of id)
subject_dn_of-or_else none none = refl
subject_dn_of-or_else (some s) none = refl
subject_dn_of-or_else o (some id) = or_subject-or_else o id.subject_dn

or_else-none : (o : Option Str) → o ≡ or_else o none
or_else-none none = refl
or_else-none (some s) = refl

module _ {Value : Type 0} where
  abbrev pub sub_of : Option (Claims Value) → Option Str
  sub_of none = none
  sub_of (some claims) = some claims.sub

  -- The context of a request that every enabled provider passed.
  pub record Granted (cfg : AuthMiddlewareConfig) (by_jwt : Result AuthError (Claims Value))
      (by_api_key : Result AuthError ApiKeyRecord)
      (by_mtls : Result AuthError (Option PeerIdentity)) (ctx : AuthContext Value) : Type 0 where
    pub found : Option ApiKeyRecord
    pub peer : Option (Option PeerIdentity)
    pub jwt_passed : Passed cfg.jwt by_jwt ctx.claims
    pub api_key_passed : Passed cfg.api_key by_api_key found
    pub mtls_passed : Passed cfg.mtls by_mtls peer
    pub identity : ctx.peer_identity ≡ flatten peer
    pub mechanisms :
        ctx.mechanisms
        ≡ mechanism_if cfg.jwt jwt ++ mechanism_if cfg.api_key api_key ++ mechanism_if cfg.mtls mtls
    pub subject :
        ctx.subject
        ≡ or_anonymous
            (or_else (or_else (sub_of ctx.claims) (subject_of found)) (dn_of (flatten peer)))

  -- The first enabled provider that fails, in the order JWT, API key, mTLS, fails with `e`.
  abbrev pub FirstFails :
      AuthMiddlewareConfig
      → Result AuthError (Claims Value)
      → Result AuthError ApiKeyRecord
      → Result AuthError (Option PeerIdentity)
      → AuthError
      → Type 0
  FirstFails cfg by_jwt by_api_key by_mtls e =
      ((cfg.jwt ≡ true) × (by_jwt ≡ err e))
      ⊎ (((claims : _) × Passed cfg.jwt by_jwt claims)
          × (((cfg.api_key ≡ true) × (by_api_key ≡ err e))
              ⊎ (((found : _) × Passed cfg.api_key by_api_key found)
                  × (cfg.mtls ≡ true)
                  × (by_mtls ≡ err e))))

  -- A block goes on, with what it adds, or gives the error of its provider.
  jwt_block-cases :
      (on : Bool) (r : Result AuthError (Claims Value))
      → ((q : Progress Value) × (jwt_block on r start ≡ ok q)
          × Passed on r q.jwt_claims
          × (q.mechanisms ≡ mechanism_if on jwt)
          × (q.subject ≡ sub_of q.jwt_claims)
          × (q.peer_identity ≡ none))
        ⊎ ((e : AuthError) × (jwt_block on r start ≡ err e) × (on ≡ true) × (r ≡ err e))
  unfolding jwt_block
  jwt_block-cases false r = inl (start, refl, refl, refl, refl, refl)
  jwt_block-cases true (ok a) = inl (_, refl, (a, refl, refl), refl, refl, refl)
  jwt_block-cases true (err e) = inr (e, refl, refl, refl)

  api_key_block-cases :
      (on : Bool) (r : Result AuthError ApiKeyRecord) (p : Progress Value)
      → ((q : Progress Value) × (found : Option ApiKeyRecord) × (api_key_block on r p ≡ ok q)
          × Passed on r found
          × (q.mechanisms ≡ p.mechanisms ++ mechanism_if on api_key)
          × (q.subject ≡ or_else p.subject (subject_of found))
          × (q.jwt_claims ≡ p.jwt_claims)
          × (q.peer_identity ≡ p.peer_identity))
        ⊎ ((e : AuthError) × (api_key_block on r p ≡ err e) × (on ≡ true) × (r ≡ err e))
  unfolding api_key_block
  api_key_block-cases false r p =
      inl (p, none, refl, refl, sym (append_nil _), or_else-none p.subject, refl, refl)
  api_key_block-cases true (ok a) p =
      inl
        (_, some a, refl, (a, refl, refl), refl, or_subject-or_else p.subject a.subject, refl, refl)
  api_key_block-cases true (err e) p = inr (e, refl, refl, refl)

  mtls_block-cases :
      (on : Bool) (r : Result AuthError (Option PeerIdentity)) (p : Progress Value)
      → p.peer_identity ≡ none
      → ((q : Progress Value) × (peer : Option (Option PeerIdentity)) × (mtls_block on r p ≡ ok q)
          × Passed on r peer
          × (q.mechanisms ≡ p.mechanisms ++ mechanism_if on mtls)
          × (q.subject ≡ or_else p.subject (dn_of (flatten peer)))
          × (q.jwt_claims ≡ p.jwt_claims)
          × (q.peer_identity ≡ flatten peer))
        ⊎ ((e : AuthError) × (mtls_block on r p ≡ err e) × (on ≡ true) × (r ≡ err e))
  unfolding mtls_block
  mtls_block-cases false r p unset =
      inl (p, none, refl, refl, sym (append_nil _), or_else-none p.subject, refl, unset)
  mtls_block-cases true (ok a) p unset =
      inl (_, some a, refl, (a, refl, refl), refl, subject_dn_of-or_else p.subject a, refl, refl)
  mtls_block-cases true (err e) p unset = inr (e, refl, refl, refl)

  run_blocks-cases :
      (cfg : AuthMiddlewareConfig) (by_jwt : Result AuthError (Claims Value))
      (by_api_key : Result AuthError ApiKeyRecord)
      (by_mtls : Result AuthError (Option PeerIdentity))
      → ((ctx : AuthContext Value) × (run_blocks cfg by_jwt by_api_key by_mtls ≡ ok (some ctx))
          × Granted cfg by_jwt by_api_key by_mtls ctx)
        ⊎ ((e : AuthError) × (run_blocks cfg by_jwt by_api_key by_mtls ≡ err e)
            × FirstFails cfg by_jwt by_api_key by_mtls e)
  unfolding run_blocks jwt_block api_key_block mtls_block
  run_blocks-cases cfg by_jwt by_api_key by_mtls = elim (jwt_block-cases cfg.jwt by_jwt) [
    | inr (e, failed, on, why) ↦ inr (e, rw failed refl, inl (on, why))
    | inl (p, went, claimed, mechs, subj, unset) ↦
        elim (api_key_block-cases cfg.api_key by_api_key p) [
          | inr (e, failed, on, why) ↦
              inr (e, rw (went, failed) refl, inr ((p.jwt_claims, claimed), inl (on, why)))
          | inl (q, found, went2, keyed, mechs2, subj2, same, id) ↦
              elim (mtls_block-cases cfg.mtls by_mtls q (id ∙ unset)) [
                | inr (e, failed, on, why) ↦ inr (
                  e,
                  rw (went, went2, failed) refl,
                  inr ((p.jwt_claims, claimed), inr ((found, keyed), on, why)),
                )
                | inl (r, peer, went3, shown, mechs3, subj3, same3, id3) ↦
                    let kept = same3 ∙ same in
                    inl (
                      context r,
                      rw (went, went2, went3) refl,
                      record {
                        found = found;
                        peer = peer;
                        jwt_passed = subst (λ o. Passed cfg.jwt by_jwt o) (sym kept) claimed;
                        api_key_passed = keyed;
                        mtls_passed = shown;
                        identity = id3;
                        mechanisms =
                            mechs3
                            ∙ ap (λ l. l ++ mechanism_if cfg.mtls mtls)
                                (mechs2 ∙ ap (λ l. l ++ mechanism_if cfg.api_key api_key) mechs);
                        subject = ap or_anonymous (
                            subj3
                            ∙ ap (λ o. or_else o (dn_of (flatten peer)))
                                (subj2
                                  ∙ ap (λ o. or_else o (subject_of found))
                                      (subj ∙ ap sub_of (sym kept))));
                      },
                    )
              ]
        ]
  ]

off_means :
    (a b c : Bool) → (not a && not b && not c) ≡ true → (a ≡ false) × (b ≡ false) × (c ≡ false)
off_means true b c h = absurd (cc)
off_means false true c h = absurd (cc)
off_means false false true h = absurd (cc)
off_means false false false h = (refl, refl, refl)

on_means : (a b c : Bool) → (not a && not b && not c) ≡ false → (a ≡ true) ⊎ (b ≡ true) ⊎ (c ≡ true)
on_means true b c h = inl refl
on_means false true c h = inr (inl refl)
on_means false false true h = inr (inr refl)
on_means false false false h = absurd (cc)

module _ (h : HeaderApi) {Value : Type 0} (t : TokenApi Value) (s : KeyStoreApi) where
  -- What `run` comes to for a route: nothing to check, a context, or the first failure.
  pub data Outcome (pipeline : AuthPipeline s) (w : Meets) (headers : h.HeaderMap)
      (extensions : Option PeerCertificate)
      : Option AuthMiddlewareConfig → Result AuthError (Option (AuthContext Value)) → Type 0 where
    no_config : Outcome pipeline w headers extensions none (ok none)
    disabled :
        (cfg : AuthMiddlewareConfig)
        → cfg.jwt ≡ false
        → cfg.api_key ≡ false
        → cfg.mtls ≡ false
        → Outcome pipeline w headers extensions (some cfg) (ok none)
    granted :
        (cfg : AuthMiddlewareConfig) (ctx : AuthContext Value)
        → (cfg.jwt ≡ true) ⊎ (cfg.api_key ≡ true) ⊎ (cfg.mtls ≡ true)
        → Granted cfg
            (Jwt.verify h t pipeline.jwt w headers).0
            (ApiKey.verify h s pipeline.api_key headers)
            (Mtls.verify pipeline.mtls extensions)
            ctx
        → Outcome pipeline w headers extensions (some cfg) (ok (some ctx))
    refused :
        (cfg : AuthMiddlewareConfig) (e : AuthError)
        → FirstFails cfg
            (Jwt.verify h t pipeline.jwt w headers).0
            (ApiKey.verify h s pipeline.api_key headers)
            (Mtls.verify pipeline.mtls extensions)
            e
        → Outcome pipeline w headers extensions (some cfg) (err e)

  -- The pipeline answers a route without a configuration, or with every mechanism disabled,
  -- with no identity, and gives none to any other route. With a mechanism enabled it either
  -- gives the error of the first enabled provider that fails, in the order JWT, API key, mTLS,
  -- or every enabled provider has passed and the context lists exactly the enabled mechanisms
  -- in that order, carries the claims and the peer of the providers that ran, and takes its
  -- subject from the token, else from the API key, else from the certificate.
  pub run-Outcome :
      (pipeline : AuthPipeline s) (w : Meets) (cfg : Option AuthMiddlewareConfig)
      (headers : h.HeaderMap) (extensions : Option PeerCertificate)
      → Outcome pipeline w headers extensions cfg (run h t s pipeline w cfg headers extensions).0
  unfolding run
  run-Outcome pipeline w none headers extensions = Outcome.no_config
  run-Outcome pipeline w (some cfg) headers extensions = elim (Bool-cases (all_disabled cfg)) [
    | inl off ↦
        let (a, b, c) = off_means cfg.jwt cfg.api_key cfg.mtls off in
        rw off (Outcome.disabled cfg a b c)
    | inr on ↦
        elim (run_blocks-cases cfg (Jwt.verify h t pipeline.jwt w headers).0
          (ApiKey.verify h s pipeline.api_key headers) (Mtls.verify pipeline.mtls extensions)) [
            | inl (ctx, went, known) ↦
                rw (on, went)
                  (Outcome.granted cfg ctx (on_means cfg.jwt cfg.api_key cfg.mtls on) known)
            | inr (e, failed, why) ↦ rw (on, failed) (Outcome.refused cfg e why)
          ]
  ]
