-- ===== src/Cache/Redis.antt =====
-- crates/gateway-cache/src/l2_redis.rs: the shared cache. The Redis client and serde_json are not in
-- the repository: their operations are parameters. A command that writes gives the server's state
-- afterwards, whether it succeeded or not, since its result is dropped.
use stateform.Prelude.{ℕ, ◌==◌, Option, none, some, if◌then◌else◌}
use stateform.Prelude.Text.{Str}
use stateform.Cache.Entry.{CachedResponse}

pub record RedisApi : Type 1 where
  pub Conn : Type 0
  -- GET: `none` is an error, `some none` a missing key.
  pub get : Conn → Str → Option (Option Str)
  pub setex : Str → ℕ → Str → Conn → Conn
  pub del : Str → Conn → Conn

-- `serde_json::to_string` and `serde_json::from_str` for `CachedResponse`.
pub record JsonApi : Type 0 where
  pub to_string : CachedResponse → Option Str
  pub from_str : Str → Option CachedResponse

module _ (r : RedisApi) (j : JsonApi) where
  abbrev pub flatten : Option (Option Str) → Option Str
  flatten none = none
  flatten (some o) = o

  unfoldable pub get : Str → r.Conn → Option CachedResponse
  get key conn = elim (flatten (r.get conn key)) [ none ↦ none | some json ↦ j.from_str json ]

  unfoldable pub put : Str → CachedResponse → ℕ → r.Conn → r.Conn
  put key response ttl_secs conn =
      if ttl_secs == 0
      then conn
      else elim (j.to_string response) [ none ↦ conn | some json ↦ r.setex key ttl_secs json conn ]

  unfoldable pub invalidate : Str → r.Conn → r.Conn
  invalidate key conn = r.del key conn
