-- ===== src/Router/Handler/Unrouted.antt =====
-- src/router.rs: the chat handler at a path that no route of the file serves for POST.
use melis.Common.{ℕ, ◌≡◌, ◌≢◌, refl, inl, inr, String, Option, none, Option-cases, List, [], In}
use melis.Float.{F64}
use melis.Config.{CompactorConfig, ProviderConfig}
use melis.Error.{service_unavailable, ok, err}
use melis.Json.{Numbers, Value, Serde}
use melis.RouteConfig.{RouteDefinition, RouteConfigFile, validate, new_resolver, resolve_route}
use melis.RouteConfig.Resolve.{resolve_route_iff}
use melis.Compactor.Text.{Unicode}
use melis.Router.{resolve_route_config}
use melis.Router.Forward.{Services}
use melis.Router.Failover.{run_failover}
use melis.Router.Payload.{validate_chat_payload}
use melis.Router.Handler.{chat_completions_handler}

module _ {n : Numbers} (f : F64) (u : Unicode) (upper : String → String) (serde : Serde n)
    (decode : List ℕ → String) {W : Type 0} (services : Services W) (configs : List ProviderConfig)
    (global_compactor : CompactorConfig f) (config : RouteConfigFile f) where
  unresolved :
      (path : String)
      → validate f upper config ≡ []
      → ((r : RouteDefinition f)
          → In r config.routes
          → r.path ≡ path
          → upper r.method ≢ upper "POST")
      → resolve_route f upper (new_resolver f upper config) path "POST" ≡ none
  unresolved path valid no_post =
      elim (Option-cases (resolve_route f upper (new_resolver f upper config) path "POST")) [
        | inl absent ↦ absent
        | inr (r, found) ↦
            let (member, same_path, same_method) =
              (resolve_route_iff f upper config path "POST" r valid).0 found in
            absurd (no_post r member same_path same_method)
      ]

  -- Over a valid route file with no route for the path whose method is, up to case, POST: a valid
  -- chat request is answered with the error 503, and nothing is asked of the services; so a route
  -- of another method, whose path is registered for POST all the same, never serves a request.
  pub chat_completions_handler_unrouted :
      (path : String) (accept : Option String) (payload : Value n) (w : W)
      → validate f upper config ≡ []
      → ((r : RouteDefinition f)
          → In r config.routes
          → r.path ≡ path
          → upper r.method ≢ upper "POST")
      → validate_chat_payload payload ≡ ok tt
      → chat_completions_handler f u upper serde decode services configs global_compactor
          (new_resolver f upper config)
          path
          accept
          payload
          w
        ≡ (w, err (service_unavailable "All providers exhausted"))
  unfolding chat_completions_handler resolve_route_config run_failover
  chat_completions_handler_unrouted path accept payload w valid no_post accepted =
      rw accepted (rw (unresolved path valid no_post) refl)
