-- ===== src/Tests/Auth.antt =====
-- The theorems on crates/gateway-auth at concrete inputs: tokens that are their subject, signed by a
-- key of the same name, and API keys that are stored as their subject.
use stateform.Prelude.{ℕ, ◌≡◌, refl, arith, Bool, true, false, none, some, List, [], ◌∷◌, ◌==◌}
use stateform.Prelude.Text.{Str, codes, str_eq, strip_prefix}
use stateform.Config.Schema.{JwtConfig, AuthMiddlewareConfig}
use stateform.Auth.Context.{Claims}
use stateform.Auth.Error.{ok, err, unknown_kid}
use stateform.Auth.Jwt as Jwt
use stateform.Auth.Jwt.{Jwk, KeyCache, Meets, TokenApi, get_key}
use stateform.Auth.Jwt.Keys.{get_key-without_kid}
use stateform.Auth.Jwt.Tokens.{Decoded, verify-Decoded}
use stateform.Auth.ApiKey.{KeyStoreApi}
use stateform.Auth.Pipeline.{AuthPipeline, run}
use stateform.Auth.Pipeline.Laws.{Outcome, run-Outcome}
use stateform.Tests.Fixtures.{test_headers, lookup}

abbrev claims_of : Str → Claims Bool
claims_of s = record { sub = s; iss = none; aud = none; exp = none; scope = none; extra = [] }

-- Algorithm 0 is RS256 and 1 an HMAC algorithm.
abbrev test_tokens : TokenApi Bool
test_tokens = record {
  Algorithm = ℕ;
  rs256 = 0;
  is_hs = λ alg. alg == 1;
  DecodingKey = Str;
  decode_header = λ token. ok (0, none);
  from_rsa_components = λ n e. ok n;
  from_ec_components = λ x y. ok x;
  decode = λ token key v. ok (claims_of token);
}

abbrev jwk : Str → Jwk
jwk id = record {
  key_id = some id;
  key_type = codes "RSA";
  n = some (codes "n");
  e = some (codes "AQAB");
  crv = none;
  x = none;
  y = none;
}

abbrev jwt_config : JwtConfig
jwt_config = record {
  jwks_url = codes "http://id/jwks";
  audience = codes "api" ∷ [];
  issuers = codes "id" ∷ [];
  jwks_cache_ttl = 300;
}

-- The keys were fetched at 1000.
abbrev cached : KeyCache
cached = record { keys = jwk (codes "k1") ∷ []; fetched_at = 1000; ttl = 300 }

abbrev warm : Meets
warm = record {
  read_cache = some cached;
  read_at = 1100;
  write_cache = some cached;
  write_at = 1100;
  fetched = ok [];
  fetched_at = 1100;
}

abbrev cold : Meets
cold = record {
  read_cache = none;
  read_at = 900;
  write_cache = none;
  write_at = 900;
  fetched = ok (jwk (codes "k1") ∷ []);
  fetched_at = 1000;
}

get_key-without_kid_example :
    ((get_key jwt_config cold none).0 ≡ err (unknown_kid (codes "(none)")))
    × ((get_key jwt_config warm none).0 ≡ ok (jwk (codes "k1")))
unfolding get_key Jwt.from_cache Jwt.on_fetch Jwt.is_expired Jwt.find_key str_eq
get_key-without_kid_example =
    get_key-without_kid jwt_config cold warm (jwk (codes "k1")) [] (refl, tt) refl refl refl refl
      (omega arith)

abbrev bearer : List (Str × Str)
bearer = (codes "authorization", codes "Bearer ann") ∷ (codes "x-api-key", codes "key1") ∷ []

verify-Decoded_example :
    Decoded test_headers test_tokens jwt_config warm bearer (claims_of (codes "ann"))
unfolding Jwt.verify Jwt.on_bearer Jwt.extract_bearer Jwt.validate_token Jwt.on_header
    Jwt.check_token Jwt.get_key Jwt.from_cache Jwt.is_expired Jwt.find_key Jwt.jwk_to_decoding_key
    Jwt.build_validation str_eq strip_prefix lookup
verify-Decoded_example = verify-Decoded test_headers test_tokens refl jwt_config warm bearer refl

abbrev test_store : KeyStoreApi
test_store = record {
  Conn = List (Str × Str);
  connect = λ url. ok [];
  get = λ conn key. ok (lookup conn key);
  from_str = λ json. ok (record { subject = json; active = true });
}

abbrev pipeline : AuthPipeline test_store
pipeline = record {
  jwt = jwt_config;
  api_key = record { prefix = codes "k:"; conn = (codes "k:key1", codes "tenant") ∷ [] };
  mtls = record { required = false };
}

abbrev jwt_and_key : AuthMiddlewareConfig
jwt_and_key = record { jwt = true; api_key = true; mtls = false }

run-Outcome_example :
    Outcome test_headers test_tokens test_store pipeline warm bearer none
      (some jwt_and_key)
      (run test_headers test_tokens test_store pipeline warm (some jwt_and_key) bearer none).0
run-Outcome_example =
    run-Outcome test_headers test_tokens test_store pipeline warm (some jwt_and_key) bearer none
