-- ===== src/Tests/Gateway.antt =====
-- The theorems on crates/gateway-core's gates, shutdown and pipeline at concrete inputs: a semaphore is
-- the number of its permits, and the shared state of the pipeline two counts.
use stateform.Prelude.{
  ℕ, zero, suc, ◌-◌, ◌*◌, ◌<◌, ◌≡◌, ◌⊎◌, refl, arith, Bool, true, false, Option, none, some, List,
  [], ◌∷◌, if◌then◌else◌, ap,
}
use stateform.Prelude.Text.{Str, codes, str_eq, is_some}
use stateform.Config.Schema.{RouteConfig, PathMatch, GatewayConfig, weighted_round_robin}
use stateform.Http.{HeaderEdit}
use stateform.Auth.Error as Auth
use stateform.Cache.Layer.{bypass}
use stateform.RateLimit.L2Redis as RateLimit
use stateform.RateLimit.Limiter.{unlimited}
use stateform.Router.Table.{MatchedRoute, matched}
use stateform.Upstream.Retry as Upstream
use stateform.Gateway.Response.{Response}
use stateform.Gateway.Concurrency as Concurrency
use stateform.Gateway.Concurrency.{
  SemaphoreApi, SemaphoreLaws, ConcurrencyLimiter, ConcurrencyPermit, in_time, passed, build,
  acquire_route, find,
}
use stateform.Gateway.Concurrency.Permits.{System, idle, Moves, Reaches}
use stateform.Gateway.Concurrency.Permits.Limits.{Reaches-enters}
use stateform.Gateway.Shutdown.{Drained, Rounds, new, shutdown}
use stateform.Gateway.Shutdown.Drain.{Stops, shutdown-Stops}
use stateform.Gateway.Pipeline.Messages.{Request}
use stateform.Gateway.Pipeline.{permit, busy, Stages, handle, request_id_of}
use stateform.Gateway.Pipeline.Effects.{Untouched, AskLaws, handle-free}
use stateform.Gateway.Gated.{gated, free, gated-PermitLaws}
use stateform.Gateway.Pipeline.Asks.{Admitted, handle-asks}
use stateform.Gateway.Pipeline.Ids.{HasId, IdLaws, handle-HasId}
use stateform.Gateway.Server.{bytes, Served, serve, serve-Served}
use stateform.Tests.Fixtures as Fixtures
use stateform.Tests.Fixtures.{test_headers, route, gateway}

abbrev take_one : ℕ → Option ℕ
take_one zero = none
take_one (suc n) = some n

abbrev counts : SemaphoreApi
counts = record { Semaphore = ℕ; new = λ n. n; take = take_one; give = suc }

take_one-some : (s t : ℕ) → take_one s ≡ some t → s ≡ suc t
take_one-some zero t h = absurd (cc)
take_one-some (suc s) t h = ap suc (the_same h)
  where
    the_same : some s ≡ some t → s ≡ t
    the_same h = cc

take_one-none : (s : ℕ) → take_one s ≡ none → s ≡ 0
take_one-none zero h = refl
take_one-none (suc s) h = absurd (cc)

counts_laws : SemaphoreLaws counts
counts_laws = record {
  available = λ n. n;
  available_new = λ n. refl;
  take_some = take_one-some;
  take_none = take_one-none;
  available_give = λ s. refl;
}

abbrev slow : RouteConfig
slow = record (route (codes "slow") (PathMatch.prefix (codes "/slow")) none) {
  max_concurrent_requests = some 2;
}

abbrev config : GatewayConfig
config = gateway (slow ∷ [])

abbrev json : Str → Str
json msg = msg

-- One request has come and waits for the permit of its route.
abbrev arrived : System counts
arrived = record {
  lim = record { global = 99; routes = (codes "slow", 2) ∷ []; acquire_timeout = 0 };
  waiting = codes "slow" ∷ [];
  running = [];
}

way : Reaches counts json (idle counts (build counts config)) arrived
unfolding build Concurrency.build_routes Concurrency.insert Concurrency.acquire_global
    Concurrency.on_global Concurrency.acquire_owned
way =
    Reaches.step Reaches.here
      (Moves.arrives (build counts config) arrived.lim in_time (codes "slow") [] [] tt refl)

positive : (sem : ℕ) → find (build counts config).routes (codes "slow") ≡ some sem → 0 < sem
unfolding find str_eq build Concurrency.build_routes Concurrency.insert
positive sem h = let same : 2 ≡ sem = cc in omega (arith, same)

Reaches-enters_example :
    (p : ConcurrencyPermit) × (lim : ConcurrencyLimiter counts) × (acquire_route counts json
        arrived.lim
        (codes "slow")
        in_time
      ≡ (passed p, lim))
unfolding counts_laws
Reaches-enters_example =
    Reaches-enters counts counts_laws json (build counts config) arrived (codes "slow") way positive
      refl

-- A request stays in flight, and each round takes 60 ms.
abbrev rounds : Rounds
rounds = record { counter = λ i. 1; clock = λ i. 60_000_000 * i; remaining = λ i. 1 }

shutdown-Stops_example :
    (d : Drained) × ((shutdown new 0 rounds).0 ≡ some d)
    × ((shutdown new 0 rounds).1.signal ≡ true)
    × Stops 0 rounds d
shutdown-Stops_example = shutdown-Stops new 0 rounds (omega arith, λ i. omega arith)

abbrev list_edit : HeaderEdit test_headers
list_edit = record {
  HeaderName = Str;
  from_bytes = λ k. some k;
  from_str = λ v. some v;
  empty = [];
  insert = λ k v m. (k, v) ∷ m;
  append = λ k v m. (k, v) ∷ m;
  remove = λ k m. m;
}

abbrev Shared : Type 0
Shared = ℕ × ℕ

-- The permits held and the requests sent; every stage lets a request pass.
abbrev stages : Stages test_headers Bool
stages = record {
  W = Shared;
  Extensions = Unit {0};
  Permit = Unit {0};
  match_request = λ path method headers w. some (matched slow);
  acquire = λ id w. (permit tt, (suc w.0, w.1));
  drop_permit = λ p w. (w.0 - 1, w.1);
  run_auth = λ cfg headers x w. (Auth.ok none, w);
  check = λ cfg id ctx headers w. (RateLimit.ok unlimited, w);
  lookup = λ cfg id method path query headers w. (bypass, w);
  store = λ cfg id method path query status headers body headers2 w. w;
  get = λ name w. some weighted_round_robin;
  send = λ name r key w.
      (Upstream.ok (record { status = 200; headers = []; body = [] }), (w.0, suc w.1));
  auth_text = λ e. [];
  core_text = λ e. [];
  json = json;
  now = λ w. 0;
  new_uuid = λ w. codes "uuid";
}

others_sent : Untouched stages (λ w. w.1)
others_sent = record {
  by_auth = λ cfg m x w. refl;
  by_check = λ cfg id ctx m w. refl;
  by_lookup = λ cfg id method path q m w. refl;
  by_store = λ cfg id method path q status m body n w. refl;
}

sent_laws : AskLaws stages (λ w. w.1)
sent_laws = record {
  others = others_sent;
  by_send = λ name r k w. refl;
  by_acquire = λ id w. refl;
  by_drop = λ p w. refl;
}

abbrev request : Request test_headers
request = record {
  method = codes "GET";
  path = codes "/slow";
  query = none;
  headers = [];
  body = [];
}

-- The limiter of `config` before those stages; no wait of the request is too long.
abbrev limited : Stages test_headers Bool
limited = gated counts stages (λ w. (in_time, in_time))

handle-free_example :
    free counts counts_laws json
      (handle test_headers list_edit Bool limited request tt (build counts config, (3, 5))).1.0
    ≡ free counts counts_laws json (build counts config)
handle-free_example =
    handle-free test_headers list_edit Bool limited (λ w. free counts counts_laws json w.0)
      (gated-PermitLaws counts counts_laws stages (λ w. (in_time, in_time))) request tt
      (build counts config, (3, 5))

handle-asks_example :
    ((handle test_headers list_edit Bool stages request tt (3, 5)).1.1 ≡ 5)
    ⊎ (((handle test_headers list_edit Bool stages request tt (3, 5)).1.1 ≡ 6)
        × Admitted test_headers list_edit Bool stages request tt
            (request_id_of test_headers list_edit Bool stages request (3, 5))
            (3, 5))
handle-asks_example =
    handle-asks test_headers list_edit Bool stages (λ w. w.1) sent_laws request tt (3, 5)

keeps : (n v : Str) (m : List (Str × Str)) → HasId test_headers m → HasId test_headers ((n, v) ∷ m)
unfolding Fixtures.lookup
keeps n v m has = go (str_eq n (codes "x-request-id"))
  where
    go :
        (b : Bool) → is_some (if b then some v else Fixtures.lookup m (codes "x-request-id")) ≡ true
    go true = refl
    go false = has

id_laws : IdLaws test_headers list_edit
unfolding Fixtures.lookup str_eq
id_laws = record {
  name = codes "x-request-id";
  is_name = refl;
  get_insert = λ v m. refl;
  insert_keeps = keeps;
}

handle-HasId_example :
    HasId test_headers (handle test_headers list_edit Bool stages request tt (3, 5)).0.headers
    ⊎ ((m : MatchedRoute) × (resp : Response) × (some (matched slow) ≡ some m)
        × (permit tt ≡ busy resp))
unfolding request_id_of Fixtures.lookup
handle-HasId_example =
    handle-HasId test_headers list_edit id_laws Bool stages (codes "uuid") request tt (3, 5) refl

serve-Served_example :
    Served test_headers list_edit Bool stages 4
      (codes "uuid")
      request
      tt
      (bytes (codes "body"))
      (3, 5)
      (serve test_headers list_edit Bool stages 4
        (codes "uuid")
        request
        tt
        (bytes (codes "body"))
        (3, 5))
serve-Served_example =
    serve-Served test_headers list_edit Bool stages id_laws 4 (codes "uuid") (codes "uuid") request
      tt (bytes (codes "body")) (3, 5) refl
