-- ===== src/Config/Tests.antt =====
-- The checks and the loading of a configuration at concrete ones.
use melis.Common.{
  ◌≡◌, ◌↔◌, ◌⊎◌, inl, inr, refl, Option, String, false, none, some, List, [], ◌∷◌, to_string,
  is_blank, string_eq, ◌==◌, if◌then◌else◌,
}
use melis.Float.{hundredths}
use melis.Config.{ProviderConfig}
use melis.Config.Gateway.{
  GatewayConfig, default_rate_limit, default_compactor, default_circuit_breaker, default_otel,
  apply_env_overrides, validate,
}
use melis.Config.Load.{io_error, parse_error, load, from_yaml, IsLoaded, load_iff}

abbrev provider : (ptype api_key : String) → ProviderConfig
provider ptype api_key = record {
  id = "p";
  provider_type = ptype;
  base_url = "https://api.example.com";
  api_key = api_key;
  weight = 1;
  timeout_secs = 30;
  models = [];
  project_id = "";
  region = "";
}

abbrev config_with : List ProviderConfig → GatewayConfig hundredths
config_with providers = record {
  server = record {
    host = "0.0.0.0";
    port = 8080;
    max_payload_size = 10485760;
    max_concurrent_connections = 5000;
    graceful_shutdown_timeout_secs = 30;
  };
  redis = record {
    cluster_urls = "redis://localhost:6379" ∷ [];
    pool_size = 10;
    connect_timeout_secs = 5;
    command_timeout_secs = 2;
  };
  providers = providers;
  rate_limit = default_rate_limit hundredths;
  compactor = default_compactor hundredths;
  circuit_breaker = default_circuit_breaker hundredths;
  observability = default_otel;
  auth = record { enabled = false; api_keys = [] };
  routes_config_path = "./routes.yaml";
}

checks_tests :
    (validate {f = hundredths} to_string (config_with (provider "vertex_anthropic" "" ∷ [])) ≡ [])
    × (validate {f = hundredths} to_string (config_with (provider "openai" " " ∷ []))
        ≡ "providers[0].api_key must not be empty" ∷ [])
unfolding validate to_string is_blank
checks_tests = (refl, refl)

overrides_tests :
    ((apply_env_overrides hundredths
        (λ name. if name == "MELIS_SERVER_PORT" then some "x" else none)
        (λ s. none)
        (config_with [])).server.port
      ≡ 8080)
    × ((apply_env_overrides hundredths
          (λ name. if name == "MELIS_SERVER_PORT" then some "81" else none)
          (λ s. some 81)
          (config_with [])).server.port
        ≡ 81)
unfolding apply_env_overrides
overrides_tests = (refl, refl)

abbrev file : String → String ⊎ String
file path = if path == "./config.yaml" then inr "providers" else inl "not found"

abbrev yaml : String → String ⊎ GatewayConfig hundredths
yaml text =
    if text == "providers" then inr (config_with (provider "openai" "k" ∷ [])) else inl "no YAML"

abbrev no_env : String → Option String
no_env name = none

load_tests :
    (load to_string file yaml no_env (λ s. none) (some "other.yaml")
      ≡ inl (io_error "other.yaml" "not found"))
    × (from_yaml to_string file yaml no_env (λ s. none) "x" ≡ inl (parse_error "no YAML"))
unfolding load from_yaml
load_tests = (refl, refl)

load_iff_example :
    (load to_string file yaml no_env (λ s. none) none
      ≡ inr (config_with (provider "openai" "k" ∷ [])))
    ↔ IsLoaded to_string file yaml no_env
        (λ s. none)
        "./config.yaml"
        (config_with (provider "openai" "k" ∷ []))
load_iff_example =
    load_iff to_string file yaml no_env (λ s. none) none (config_with (provider "openai" "k" ∷ []))
