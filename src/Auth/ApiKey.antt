-- ===== src/Auth/ApiKey.antt =====
-- crates/gateway-auth/src/api_key.rs: API keys looked up in Redis. The Redis client and serde_json
-- are not in the repository: GET and the reader of a record are parameters, an error of theirs is
-- its message.
use stateform.Prelude.{Bool, Option, ◌++◌, if◌then◌else◌}
use stateform.Prelude.Text.{Str, codes}
use stateform.Config.Schema.{ApiKeyConfig}
use stateform.Http.{HeaderApi}
use stateform.Auth.Error.{
  AuthError, missing_api_key, invalid_api_key, api_key_store, Result, ok, err, ◌>>=◌, ok_or,
  map_err,
}

pub record ApiKeyRecord : Type 0 where
  pub subject : Str
  pub active : Bool

pub record KeyStoreApi : Type 1 where
  pub Conn : Type 0
  -- `redis::Client::open` with `ConnectionManager::new`
  pub connect : Str → Result Str Conn
  pub get : Conn → Str → Result Str (Option Str)
  -- `serde_json::from_str::<ApiKeyRecord>`
  pub from_str : Str → Result Str ApiKeyRecord

pub record ApiKeyProvider (s : KeyStoreApi) : Type 0 where
  pub prefix : Str
  pub conn : s.Conn

module _ (h : HeaderApi) where
  unfoldable pub extract_api_key : h.HeaderMap → Result AuthError Str
  extract_api_key headers = do
    value ← ok_or (h.get headers (codes "x-api-key")) missing_api_key
    ok_or (h.to_str value) missing_api_key

module _ (s : KeyStoreApi) where
  unfoldable pub new : ApiKeyConfig → Result AuthError (ApiKeyProvider s)
  new config = do
    conn ← map_err api_key_store (s.connect config.redis_url)
    ok record { prefix = config.redis_key_prefix; conn = conn }

  abbrev pub if_active : ApiKeyRecord → Result AuthError ApiKeyRecord
  if_active record_ = if record_.active then ok record_ else err invalid_api_key

  unfoldable pub lookup : ApiKeyProvider s → Str → Result AuthError ApiKeyRecord
  lookup p raw_key = do
    value ← map_err api_key_store (s.get p.conn (p.prefix ++ raw_key))
    json ← ok_or value invalid_api_key
    record_ ← map_err (λ e. api_key_store (codes "corrupt key record: " ++ e)) (s.from_str json)
    if_active record_

module _ (h : HeaderApi) (s : KeyStoreApi) where
  unfoldable pub verify : ApiKeyProvider s → h.HeaderMap → Result AuthError ApiKeyRecord
  unfolding extract_api_key lookup
  verify p headers = do raw_key ← extract_api_key h headers; lookup s p raw_key
