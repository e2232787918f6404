-- ===== src/Router/Routes.antt =====
-- src/router.rs: which paths `build_router` registers, with the probes. Paths are compared as texts:
-- what axum makes of a pattern is its own. The layers around the routes are in Middleware.
pub mod Reached
mod Tests
use melis.Common.{
  ℕ, String, Bool, true, false, List, [], ◌∷◌, ◌++◌, contains, string_eq, ◌==◌, if◌then◌else◌,
}
use melis.Float.{F64}
use melis.RouteConfig.{RouteDefinition}
use melis.Json.{Numbers, Value, string, json}

pub data Verb : Type 0 where
  get : Verb
  post : Verb

pub data Endpoint : Type 0 where
  metrics_handler : Endpoint
  healthz_handler : Endpoint
  readyz_handler : Endpoint
  embeddings_endpoint : Endpoint
  chat_endpoint : Endpoint

pub record Registration : Type 0 where
  pub verb : Verb
  pub path : String
  pub endpoint : Endpoint

abbrev pub chat_at : String → Registration
chat_at path = record { verb = post; path = path; endpoint = chat_endpoint }

abbrev pub fixed_routes : List Registration
fixed_routes =
    record { verb = get; path = "/metrics"; endpoint = metrics_handler }
    ∷ record { verb = get; path = "/healthz"; endpoint = healthz_handler }
    ∷ record { verb = get; path = "/readyz"; endpoint = readyz_handler }
    ∷ record { verb = post; path = "/v1/embeddings"; endpoint = embeddings_endpoint }
    ∷ []

module _ {f : F64} where
  -- The routes of the file, by the paths registered so far, and the default one.
  unfoldable pub chat_routes :
      (registered_paths : List String) → List (RouteDefinition f) → List Registration
  chat_routes registered [] =
      if contains registered "/v1/chat/completions" then [] else chat_at "/v1/chat/completions" ∷ []
  chat_routes registered (r ∷ rs) =
      if contains registered r.path
      then chat_routes registered rs
      else chat_at r.path ∷ chat_routes (r.path ∷ registered) rs

  unfoldable pub build_router : List (RouteDefinition f) → List Registration
  build_router routes = fixed_routes ++ chat_routes ("/v1/embeddings" ∷ []) routes

-- The status and the body.
abbrev pub readyz : {n : Numbers} → (redis_available : Bool) → ℕ × Value n
readyz true = (200, json (("status", string "ready") ∷ []))
readyz false = (
  503,
  json (("status", string "not_ready") ∷ ("reason", string "Redis connection unavailable") ∷ []),
)
