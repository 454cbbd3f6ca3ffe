-- ===== src/Router/Table/Reload.antt =====
-- `RouterHandle` of crates/gateway-router/src/router.rs over a sequence of reloads.
use stateform.Prelude.{◌≡◌, refl, List, [], ◌∷◌}
use stateform.Prelude.Text.{Str}
use stateform.Config.Schema.{RouteConfig, GatewayConfig}
use stateform.Http.{HeaderApi, RegexApi}
use stateform.Router.Table.{Router, Result, ok, err, build, rebuild, swap_in, match_request}
use stateform.Router.Table.Spec.{match_spec}
use stateform.Router.Table.Refines.{match_request-refines}

module _ (x : RegexApi) where
  -- The router after a sequence of `rebuild`s.
  unfoldable pub reloads : List GatewayConfig → Router x → Router x
  reloads [] r = r
  reloads (cfg ∷ cfgs) r = reloads cfgs (rebuild x cfg r).0

  abbrev pub taken : List RouteConfig → List RouteConfig → Result (Router x) → List RouteConfig
  taken fresh old (ok r) = fresh
  taken fresh old (err e) = old

  -- The routes of the last configuration that builds, or the given ones.
  unfoldable pub accepted : List GatewayConfig → List RouteConfig → List RouteConfig
  accepted [] routes = routes
  accepted (cfg ∷ cfgs) routes = accepted cfgs (taken cfg.routes routes (build x cfg))

  -- The router answers every request as the specification does on the routes.
  abbrev pub AnswersFor : HeaderApi → List RouteConfig → Router x → Type 0
  AnswersFor h routes r =
      (method : Str) (headers : h.HeaderMap) (path : Str)
      → match_request h x method headers r path ≡ match_spec h x method headers routes path

  from_answering :
      (h : HeaderApi) (cfgs : List GatewayConfig) (routes : List RouteConfig) (r : Router x)
      (method : Str) (headers : h.HeaderMap) (path : Str)
      → AnswersFor h routes r
      → match_request h x method headers (reloads cfgs r) path
        ≡ match_spec h x method headers (accepted cfgs routes) path
  unfolding reloads accepted rebuild
  from_answering h [] routes r method headers path good = good method headers path
  from_answering h (cfg ∷ cfgs) routes r method headers path good =
      go (build x cfg) refl
        (λ routes' r' good'. from_answering h cfgs routes' r' method headers path good')
    where
      go :
          (o : Result (Router x))
          → build x cfg ≡ o
          → ((routes' : List RouteConfig) (r' : Router x)
              → AnswersFor h routes' r'
              → match_request h x method headers (reloads cfgs r') path
                ≡ match_spec h x method headers (accepted cfgs routes') path)
          → match_request h x method headers (reloads cfgs (swap_in x r o).0) path
            ≡ match_spec h x method headers (accepted cfgs (taken cfg.routes routes o)) path
      go (err e) is later = later routes r good
      go (ok r') is later =
          later cfg.routes r' (λ m hd p. match_request-refines x h m hd cfg r' p is)

  -- After any sequence of reloads, valid or not, a handle made from a configuration that builds
  -- answers every request as the specification does on the routes of the last configuration
  -- that built.
  pub reloads-answers :
      (h : HeaderApi) (cfg : GatewayConfig) (cfgs : List GatewayConfig) (r : Router x)
      (method : Str) (headers : h.HeaderMap) (path : Str)
      → build x cfg ≡ ok r
      → match_request h x method headers (reloads cfgs r) path
        ≡ match_spec h x method headers (accepted cfgs cfg.routes) path
  reloads-answers h cfg cfgs r method headers path built =
      from_answering h cfgs cfg.routes r method headers path
        (λ m hd p. match_request-refines x h m hd cfg r p built)
