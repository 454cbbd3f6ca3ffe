-- ===== src/Auth/Context.antt =====
-- crates/gateway-auth/src/context.rs: the verified identity of a caller. `serde_json::Value` is a
-- parameter.
use stateform.Prelude.{ℕ, Option, none, some, List, []}
use stateform.Prelude.Text.{Str, split_whitespace}

pub data AuthMechanism : Type 0 where
  jwt api_key mtls : AuthMechanism

pub record PeerIdentity : Type 0 where
  pub subject_dn : Str
  pub issuer_dn : Str
  pub fingerprint : Str

module _ (Value : Type 0) where
  pub record Claims : Type 0 where
    pub sub : Str
    pub iss : Option Str
    pub aud : Option Value
    pub exp : Option ℕ
    pub scope : Option Str
    pub extra : List (Str × Value)

  pub record AuthContext : Type 0 where
    pub subject : Str
    pub mechanisms : List AuthMechanism
    pub claims : Option Claims
    pub peer_identity : Option PeerIdentity

-- `Claims::scopes`
unfoldable pub scopes : {Value : Type 0} → Claims Value → List Str
unfolding split_whitespace
scopes claims = elim claims.scope [ none ↦ [] | some s ↦ split_whitespace s ]
