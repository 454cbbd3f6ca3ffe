-- ===== src/Auth/Pipeline.antt =====
-- crates/gateway-auth/src/pipeline.rs: the providers of a route, one after the other. The local
-- variables of `run` are the record `Progress`.
pub mod Laws
use stateform.Prelude.{
  Bool, true, false, not, ◌&&◌, Option, none, some, List, [], ◌∷◌, ◌++◌, if◌then◌else◌,
}
use stateform.Prelude.Text.{Str, codes}
use stateform.Config.Schema.{JwtConfig, AuthConfig, AuthMiddlewareConfig}
use stateform.Http.{HeaderApi}
use stateform.Auth.Context.{AuthContext, AuthMechanism, jwt, api_key, mtls, Claims, PeerIdentity}
use stateform.Auth.Error.{AuthError, Result, ok, err, ◌>>=◌}
use stateform.Auth.Jwt as Jwt
use stateform.Auth.Jwt.{KeyCache, Meets, TokenApi}
use stateform.Auth.ApiKey as ApiKey
use stateform.Auth.ApiKey.{KeyStoreApi, ApiKeyProvider, ApiKeyRecord}
use stateform.Auth.Mtls as Mtls
use stateform.Auth.Mtls.{MtlsProvider, PeerCertificate}

pub record AuthPipeline (s : KeyStoreApi) : Type 0 where
  pub jwt : JwtConfig
  pub api_key : ApiKeyProvider s
  pub mtls : MtlsProvider

module _ (s : KeyStoreApi) where
  -- The cache of keys is empty then.
  unfoldable pub new : AuthConfig → Result AuthError (AuthPipeline s)
  unfolding ApiKey.new
  new cfg = do
    provider ← ApiKey.new s cfg.api_keys
    ok record { jwt = cfg.jwt; api_key = provider; mtls = record { required = cfg.mtls.required } }

module _ (Value : Type 0) where
  pub record Progress : Type 0 where
    pub mechanisms : List AuthMechanism
    pub subject : Option Str
    pub jwt_claims : Option (Claims Value)
    pub peer_identity : Option PeerIdentity

-- `if subject.is_none() { subject = Some(s) }`
abbrev pub or_subject : Option Str → Str → Option Str
or_subject none s = some s
or_subject (some first) s = some first

abbrev pub or_anonymous : Option Str → Str
or_anonymous none = codes "(anonymous)"
or_anonymous (some s) = s

abbrev pub subject_dn_of : Option Str → Option PeerIdentity → Option Str
subject_dn_of subject none = subject
subject_dn_of subject (some id) = or_subject subject id.subject_dn

module _ {Value : Type 0} where
  abbrev pub start : Progress Value
  start = record { mechanisms = []; subject = none; jwt_claims = none; peer_identity = none }

  -- The three blocks, from what the provider of each gives.
  unfoldable pub jwt_block :
      Bool → Result AuthError (Claims Value) → Progress Value → Result AuthError (Progress Value)
  jwt_block false verified p = ok p
  jwt_block true verified p = do
    claims ← verified
    ok record p {
      subject = some claims.sub;
      jwt_claims = some claims;
      mechanisms = p.mechanisms ++ (jwt ∷ []);
    }

  unfoldable pub api_key_block :
      Bool → Result AuthError ApiKeyRecord → Progress Value → Result AuthError (Progress Value)
  api_key_block false verified p = ok p
  api_key_block true verified p = do
    found ← verified
    ok record p {
      subject = or_subject p.subject found.subject;
      mechanisms = p.mechanisms ++ (api_key ∷ []);
    }

  unfoldable pub mtls_block :
      Bool
      → Result AuthError (Option PeerIdentity)
      → Progress Value
      → Result AuthError (Progress Value)
  mtls_block false verified p = ok p
  mtls_block true verified p = do
    identity ← verified
    ok record p {
      subject = subject_dn_of p.subject identity;
      peer_identity = identity;
      mechanisms = p.mechanisms ++ (mtls ∷ []);
    }

  abbrev pub context : Progress Value → AuthContext Value
  context p = record {
    subject = or_anonymous p.subject;
    mechanisms = p.mechanisms;
    claims = p.jwt_claims;
    peer_identity = p.peer_identity;
  }

  -- The blocks in their order, from what each provider would give.
  unfoldable pub run_blocks :
      AuthMiddlewareConfig
      → Result AuthError (Claims Value)
      → Result AuthError ApiKeyRecord
      → Result AuthError (Option PeerIdentity)
      → Result AuthError (Option (AuthContext Value))
  unfolding jwt_block api_key_block mtls_block
  run_blocks cfg by_jwt by_api_key by_mtls = do
    p ← jwt_block cfg.jwt by_jwt start
    q ← api_key_block cfg.api_key by_api_key p
    r ← mtls_block cfg.mtls by_mtls q
    ok (some (context r))

abbrev pub all_disabled : AuthMiddlewareConfig → Bool
all_disabled cfg = not cfg.jwt && not cfg.api_key && not cfg.mtls

module _ (h : HeaderApi) {Value : Type 0} (t : TokenApi Value) (s : KeyStoreApi) where
  -- The result, with the cache of keys afterwards, which only the JWT provider touches.
  unfoldable pub run :
      AuthPipeline s
      → Meets
      → Option AuthMiddlewareConfig
      → h.HeaderMap
      → Option PeerCertificate
      → Result AuthError (Option (AuthContext Value)) × Option KeyCache
  unfolding run_blocks Jwt.verify ApiKey.verify Mtls.verify
  run pipeline w none headers extensions = (ok none, w.read_cache)
  run pipeline w (some cfg) headers extensions =
      if all_disabled cfg
      then (ok none, w.read_cache)
      else (let by_jwt = Jwt.verify h t pipeline.jwt w headers in
          let by_api_key = ApiKey.verify h s pipeline.api_key headers in
          let by_mtls = Mtls.verify pipeline.mtls extensions in
          (run_blocks cfg by_jwt.0 by_api_key by_mtls, if cfg.jwt then by_jwt.1 else w.read_cache))
