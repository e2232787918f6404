-- ===== src/Routing.antt =====
-- src/routing.rs: which provider serves a model.
pub mod Order
mod Tests
use Prim.Native.String.{◌++◌}
use melis.Common.{
  String, Bool, Option, none, some, List, [], ◌∷◌, contains, string_eq, ◌==◌, if◌then◌else◌,
}
use melis.Float.{F64}
use melis.Error.{GatewayError, bad_request, Result, ok, err}
use melis.Config.{ProviderConfig}
use melis.RouteConfig.{WeightedProvider, RouteDefinition, RouteConfigFile}

-- `find_provider_by_model`
unfoldable pub find_provider_by_model : String → List ProviderConfig → Option String
find_provider_by_model model [] = none
find_provider_by_model model (p ∷ ps) =
    if contains p.models model then some p.id else find_provider_by_model model ps

-- The loop over the `providers` of a route.
unfoldable pub weighted_by_model : String → List WeightedProvider → Option String
weighted_by_model model [] = none
weighted_by_model model (wp ∷ wps) =
    if wp.model == model then some wp.name else weighted_by_model model wps

abbrev pub or_else {ℓ} : {A : Type ℓ} → Option A → Option A → Option A
or_else none later = later
or_else (some a) later = some a

abbrev pub weighted_in : String → Option (List WeightedProvider) → Option String
weighted_in model none = none
weighted_in model (some wps) = weighted_by_model model wps

abbrev pub single_in : String → (route_model provider : Option String) → Option String
single_in model none provider = none
single_in model (some route_model) provider = if route_model == model then provider else none

abbrev pub or_not_configured : String → Option String → Result String
or_not_configured model none =
    err (bad_request ("model '" ++ (model ++ "' is not configured in any provider")))
or_not_configured model (some provider) = ok provider

module _ (f : F64) where
  abbrev pub find_in_route : String → RouteDefinition f → Option String
  find_in_route model route =
      or_else (single_in model route.model route.provider) (weighted_in model route.providers)

  -- `find_provider_in_routes`
  unfoldable pub find_provider_in_routes : String → List (RouteDefinition f) → Option String
  find_provider_in_routes model [] = none
  find_provider_in_routes model (route ∷ routes) =
      or_else (find_in_route model route) (find_provider_in_routes model routes)

  -- `validate_model_routing`
  unfoldable pub validate_model_routing :
      String → List ProviderConfig → RouteConfigFile f → Result String
  validate_model_routing model providers route_config = or_not_configured model (
      or_else (find_provider_by_model model providers)
        (find_provider_in_routes model route_config.routes))
