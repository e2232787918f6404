-- ===== src/Router.antt =====
-- src/router.rs: the route of a request, with what it says of model, compaction and providers.
pub mod Payload
pub mod Compaction
pub mod Forward
pub mod Gateway
pub mod Failover
pub mod Routes
pub mod Handler
mod Tests
use melis.Common.{ℕ, String, Option, none, some, List, [], ◌∷◌, unwrap_or}
use melis.Float.{F64}
use melis.Config.{CompactorConfig}
use melis.RouteConfig.{
  WeightedProvider, RouteDefinition, RouteResolver, resolve_route, effective_token_config,
}

pub record ResolvedRoute (f : F64) : Type 0 where
  pub model : String
  pub effective_token_config : CompactorConfig f
  pub providers : List WeightedProvider

abbrev single_provider : (model provider : Option String) → List WeightedProvider
single_provider model none = []
single_provider model (some name) =
    record { name = name; weight = 1; model = unwrap_or model "" } ∷ []

abbrev listed_or : Option (List WeightedProvider) → List WeightedProvider → List WeightedProvider
listed_or (some providers) single = providers
listed_or none single = single

module _ (f : F64) where
  unfoldable pub extract_providers : RouteDefinition f → List WeightedProvider
  extract_providers route = listed_or route.providers (single_provider route.model route.provider)

  -- The `match` on the route that was found.
  abbrev resolved :
      Option (RouteDefinition f) → (payload_model : String) → CompactorConfig f → ResolvedRoute f
  resolved none payload_model global_compactor = record {
    model = payload_model;
    effective_token_config = global_compactor;
    providers = [];
  }
  resolved (some route) payload_model global_compactor = record {
    model = unwrap_or route.model payload_model;
    effective_token_config = effective_token_config f route global_compactor;
    providers = extract_providers route;
  }

module _ (f : F64) (upper : String → String) where
  unfoldable pub resolve_route_config :
      RouteResolver f upper
      → (path method payload_model : String) → CompactorConfig f
      → ResolvedRoute f
  resolve_route_config resolver path method payload_model global_compactor =
      resolved f (resolve_route f upper resolver path method) payload_model global_compactor
