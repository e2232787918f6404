-- ===== src/Routing/Tests.antt =====
-- Some models routed, and the theorem at one.
use melis.Common.{◌≡◌, refl, ◌↔◌, none, some, List, [], ◌∷◌}
use melis.Float.{hundredths}
use melis.Error.{ok, err, bad_request}
use melis.Config.{ProviderConfig}
use melis.RouteConfig.{RouteConfigFile}
use melis.Routing.{
  find_provider_by_model, weighted_by_model, find_provider_in_routes, validate_model_routing,
}
use melis.Routing.Order.{IsFirstAnswer, answers, validate_model_routing_iff}

routing : Unit {0}
unfolding find_provider_by_model weighted_by_model find_provider_in_routes validate_model_routing
routing = tt

abbrev providers : List ProviderConfig
providers =
    record {
      id = "main";
      provider_type = "openai";
      base_url = "https://api";
      api_key = "k";
      weight = 1;
      timeout_secs = 30;
      models = "gpt" ∷ "mini" ∷ [];
      project_id = "";
      region = "";
    }
    ∷ []

-- A route that names a model but no single provider, and serves it by the second of its list.
abbrev config : RouteConfigFile hundredths
config = record {
  routes =
      record {
        path = "/chat";
        method = "POST";
        provider = none;
        model = some "opus";
        providers = some (
            record { name = "first"; weight = 1; model = "gpt" }
            ∷ record { name = "second"; weight = 1; model = "opus" }
            ∷ []);
        token_optimization = none;
      }
      ∷ [];
  custom_providers = [];
}

validate_model_routing_tests :
    (validate_model_routing hundredths "gpt" providers config ≡ ok "main")
    × (validate_model_routing hundredths "opus" providers config ≡ ok "second")
    × (validate_model_routing hundredths "llama" providers config
        ≡ err (bad_request "model 'llama' is not configured in any provider"))
unfolding routing
validate_model_routing_tests = (refl, refl, refl)

validate_model_routing_iff_example :
    (validate_model_routing hundredths "opus" providers config ≡ ok "second")
    ↔ IsFirstAnswer "second" (answers hundredths "opus" providers config)
validate_model_routing_iff_example =
    validate_model_routing_iff hundredths "opus" "second" providers config
