-- ===== src/RouteConfig/Tests.antt =====
-- A small `routes.yaml`, valid and broken, and the theorems at it.
use melis.Common.{
  ℕ, ◌≡◌, refl, ◌≢◌, ◌↔◌, inl, inr, String, Bool, true, false, Option, none, some, List, [], ◌∷◌,
  In, All, ◌==◌, string_eq, if◌then◌else◌, map,
}
use melis.Float.{hundredths}
use melis.RouteConfig.{
  RouteDefinition, RouteConfigFile, missing_field, invalid_provider, duplicate_route, validate,
  routes_errors, provider_errors, route_errors, build_table, new_resolver, resolve_route, Loaded,
  loaded, unreadable, parse_error, start, try_reload,
}
use melis.RouteConfig.Valid.{IsGood, IsUnique, custom_names_of, validate_iff}
use melis.RouteConfig.Resolve.{resolve_route_iff}
use melis.RouteConfig.Reload.{IsLastValid, reloads, reloads-IsLastValid}

routing : Unit {0}
unfolding melis.Common.is_blank validate routes_errors provider_errors route_errors build_table
    new_resolver resolve_route start try_reload
routing = tt

-- Enough of `to_uppercase` for the methods below.
abbrev upper : String → String
upper s = if s == "post" then "POST" else s

abbrev chat : RouteDefinition hundredths
chat = record {
  path = "/chat";
  method = "post";
  provider = some "openai";
  model = none;
  providers = none;
  token_optimization = none;
}

abbrev local : RouteDefinition hundredths
local = record {
  path = "/local";
  method = "POST";
  provider = some "lab";
  model = none;
  providers = none;
  token_optimization = none;
}

abbrev config : RouteConfigFile hundredths
config = record {
  routes = chat ∷ local ∷ [];
  custom_providers = record { name = "lab"; base_url = "http://lab"; api_format = "openai" } ∷ [];
}

abbrev broken : RouteConfigFile hundredths
broken = record {
  routes =
      chat
      ∷ record {
        path = "/chat";
        method = "POST";
        provider = some "lab";
        model = none;
        providers = none;
        token_optimization = none;
      }
      ∷ record {
        path = " ";
        method = "GET";
        provider = none;
        model = none;
        providers = none;
        token_optimization = none;
      }
      ∷ [];
  custom_providers = [];
}

validate_tests :
    (validate hundredths upper config ≡ [])
    × (validate hundredths upper broken
        ≡ invalid_provider 1 "lab"
          ∷ duplicate_route "/chat" "POST" 0 1
          ∷ missing_field 2 "path"
          ∷ missing_field 2 "provider ou providers"
          ∷ [])
unfolding routing
validate_tests = (refl, refl)

resolve_route_tests :
    (resolve_route hundredths upper (new_resolver hundredths upper config) "/local" "post"
      ≡ some local)
    × (resolve_route hundredths upper (new_resolver hundredths upper config) "/local" "GET" ≡ none)
    × (resolve_route hundredths upper (new_resolver hundredths upper config) "/chat/" "POST" ≡ none)
unfolding routing
resolve_route_tests = (refl, refl, refl)

config-valid : validate hundredths upper config ≡ []
unfolding routing
config-valid = refl

config-starts : start hundredths upper (loaded config) ≡ some (new_resolver hundredths upper config)
unfolding routing
config-starts = refl

validate_iff_example : (validate hundredths upper config ≡ []) ↔ (
    All (IsGood hundredths upper (custom_names_of hundredths upper config)) config.routes
    × IsUnique hundredths upper config.routes)
validate_iff_example = validate_iff hundredths upper config

resolve_route_iff_example :
    (resolve_route hundredths upper (new_resolver hundredths upper config) "/local" "post"
      ≡ some local)
    ↔ (In local config.routes × (local.path ≡ "/local") × (upper local.method ≡ upper "post"))
resolve_route_iff_example =
    resolve_route_iff hundredths upper config "/local" "post" local config-valid

abbrev changes : List (Loaded hundredths upper)
changes = loaded broken ∷ unreadable (parse_error "line 3") ∷ []

reloads-IsLastValid_example :
    (served : RouteConfigFile hundredths) × IsLastValid hundredths upper served
      (loaded config ∷ changes)
    × (reloads hundredths upper (new_resolver hundredths upper config) changes
        ≡ new_resolver hundredths upper served)
reloads-IsLastValid_example =
    reloads-IsLastValid hundredths upper (loaded config) changes
      (new_resolver hundredths upper config) config-starts
