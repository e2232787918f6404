-- ===== src/Config/Gateway.antt =====
-- src/config.rs: the gateway's whole configuration, its defaults, the overrides from the environment
-- and the checks. `f64` is the parameter `f`, the text of a number the parameter `show`; reading the
-- environment and the file is the environment's: the values are arguments.
use Prim.Native.String.{◌++◌ as ◌⧺◌}
use melis.Common.{
  ℕ, suc, String, to_string, Bool, true, false, not, ◌&&◌, ◌||◌, Option, List, [], ◌∷◌, ◌++◌,
  and_then, unwrap_or, is_empty, is_blank, contains, ltb, nat_beq, string_eq, ◌==◌, join_by,
  if◌then◌else◌,
}
use melis.Float.{F64}
use melis.Config.{AuthConfig, ApiKeyEntry, CompactorConfig, ProviderConfig}
use melis.CircuitBreaker.{CircuitBreakerConfig}

pub record ServerConfig : Type 0 where
  pub host : String
  pub port : ℕ
  pub max_payload_size : ℕ
  pub max_concurrent_connections : ℕ
  pub graceful_shutdown_timeout_secs : ℕ

pub record RedisConfig : Type 0 where
  pub cluster_urls : List String
  pub pool_size : ℕ
  pub connect_timeout_secs : ℕ
  pub command_timeout_secs : ℕ

pub record OtelConfig : Type 0 where
  pub otlp_endpoint : String
  pub service_name : String
  pub enabled : Bool

abbrev pub default_otel : OtelConfig
default_otel = record {
  otlp_endpoint = "http://localhost:4317";
  service_name = "melis-gateway";
  enabled = false;
}

module _ (f : F64) where
  open f use {Carrier, lit, lt, le}

  pub record RateLimitDefaults : Type 0 where
    pub burst_capacity : ℕ
    pub refill_rate : Carrier

  pub record GatewayConfig : Type 0 where
    pub server : ServerConfig
    pub redis : RedisConfig
    pub providers : List ProviderConfig
    pub rate_limit : RateLimitDefaults
    pub compactor : CompactorConfig f
    pub circuit_breaker : CircuitBreakerConfig f
    pub observability : OtelConfig
    pub auth : AuthConfig f
    pub routes_config_path : String

  -- The values of the sections that a file leaves out.
  abbrev pub default_rate_limit : RateLimitDefaults
  default_rate_limit = record { burst_capacity = 100; refill_rate = lit 100 1 }

  abbrev pub default_compactor : CompactorConfig f
  default_compactor = record {
    token_threshold = 4096;
    max_history_messages = 20;
    stop_words = [];
    tokenizer_name = "cl100k_base";
    target_token_ratio = lit 45 2;
    min_final_tokens = 200;
    critical_markers = [];
    preserve_critical_markers = true;
    strategy = "adaptive_trimming";
  }

  abbrev pub default_circuit_breaker : CircuitBreakerConfig f
  default_circuit_breaker = record {
    failure_threshold_percent = lit 500 1;
    window_duration_secs = 60;
    min_requests_in_window = 5;
    open_ttl_secs = 30;
    max_ttl_secs = 300;
    backoff_factor = lit 20 1;
  }

  -- `env` is the environment, `parse_u16` the parser of a port.
  unfoldable pub apply_env_overrides :
      (env : String → Option String) (parse_u16 : String → Option ℕ) → GatewayConfig → GatewayConfig
  apply_env_overrides env parse_u16 config = record config {
    routes_config_path = unwrap_or (env "MELIS_ROUTES_CONFIG") config.routes_config_path;
    server = record config.server {
      host = unwrap_or (env "MELIS_SERVER_HOST") config.server.host;
      port = unwrap_or (and_then (env "MELIS_SERVER_PORT") parse_u16) config.server.port;
    };
    observability = record config.observability {
      otlp_endpoint = unwrap_or (env "MELIS_OTLP_ENDPOINT") config.observability.otlp_endpoint;
    };
  }

-- A check is the condition under which it fails, and what is said then.
abbrev pub Check : Type 0
Check = Bool × String

abbrev pub failed_checks : List Check → List String
failed_checks [] = []
failed_checks ((fails, message) ∷ checks) =
    let rest = failed_checks checks in if fails then message ∷ rest else rest

-- The checks of each element, by its index from `i`.
abbrev pub each {ℓ} : {A : Type ℓ} → (ℕ → A → List Check) → ℕ → List A → List Check
each checks i [] = []
each checks i (x ∷ xs) = checks i x ++ each checks (suc i) xs

abbrev pub numbered : (before : String) → ℕ → (after : String) → String
numbered prefix i suffix = prefix ⧺ ("[" ⧺ (to_string i ⧺ ("]" ⧺ suffix)))

abbrev pub valid_types : List String
valid_types =
    "openai" ∷ "anthropic" ∷ "google_vertex_ai" ∷ "vertex_anthropic" ∷ "oci_genai" ∷ "ollama" ∷ []

abbrev pub server_checks : ServerConfig → List Check
server_checks s =
    (nat_beq s.port 0, "server.port must be > 0")
    ∷ (nat_beq s.max_payload_size 0, "server.max_payload_size must be > 0")
    ∷ (nat_beq s.max_concurrent_connections 0, "server.max_concurrent_connections must be > 0")
    ∷ []

abbrev pub url_checks : ℕ → String → List Check
url_checks i url = (is_blank url, numbered "redis.cluster_urls" i " must not be empty") ∷ []

abbrev pub redis_checks : RedisConfig → List Check
redis_checks r =
    (is_empty r.cluster_urls, "redis.cluster_urls must contain at least one URL")
    ∷ (each url_checks 0 r.cluster_urls
        ++ (nat_beq r.pool_size 0, "redis.pool_size must be > 0") ∷ [])

abbrev pub provider_checks : ℕ → ProviderConfig → List Check
provider_checks i p =
    (is_blank p.id, numbered "providers" i ".id must not be empty")
    ∷ (is_blank p.base_url, numbered "providers" i ".base_url must not be empty")
    ∷ (
      not (p.provider_type == "vertex_anthropic") && is_blank p.api_key,
      numbered "providers" i ".api_key must not be empty",
    )
    ∷ (nat_beq p.weight 0, numbered "providers" i ".weight must be > 0")
    ∷ (
      not (contains valid_types p.provider_type),
      numbered "providers" i (
          ".provider_type '"
          ⧺ (p.provider_type ⧺ ("' is invalid. Valid values: " ⧺ join_by ", " valid_types))),
    )
    ∷ []

module _ {f : F64} (show : f.Carrier → String) where
  open f use {lit, lt, le}

  abbrev pub compactor_checks : CompactorConfig f → List Check
  compactor_checks c =
      (
        ltb c.token_threshold 512 || ltb 128000 c.token_threshold,
        "compactor.token_threshold must be between 512 and 128000, got "
            ⧺ to_string c.token_threshold,
      )
      ∷ (is_blank c.tokenizer_name, "compactor.tokenizer_name must not be empty")
      ∷ []

  abbrev pub rate_limit_checks : RateLimitDefaults f → List Check
  rate_limit_checks r =
      (nat_beq r.burst_capacity 0, "rate_limit.burst_capacity must be > 0")
      ∷ (le r.refill_rate (lit 0 1), "rate_limit.refill_rate must be > 0.0")
      ∷ []

  abbrev pub circuit_breaker_checks : CircuitBreakerConfig f → List Check
  circuit_breaker_checks b =
      (
        le b.failure_threshold_percent (lit 0 1) || lt (lit 1000 1) b.failure_threshold_percent,
        "circuit_breaker.failure_threshold_percent must be between 0 (exclusive) and 100 (inclusive), got "
            ⧺ show b.failure_threshold_percent,
      )
      ∷ (nat_beq b.window_duration_secs 0, "circuit_breaker.window_duration_secs must be > 0")
      ∷ (nat_beq b.open_ttl_secs 0, "circuit_breaker.open_ttl_secs must be > 0")
      ∷ (
        ltb b.max_ttl_secs b.open_ttl_secs,
        "circuit_breaker.max_ttl_secs ("
            ⧺ (to_string b.max_ttl_secs
                ⧺ (") must be >= open_ttl_secs (" ⧺ (to_string b.open_ttl_secs ⧺ ")"))),
      )
      ∷ (
        lt b.backoff_factor (lit 10 1),
        "circuit_breaker.backoff_factor must be >= 1.0, got " ⧺ show b.backoff_factor,
      )
      ∷ []

  abbrev pub key_checks : ℕ → ApiKeyEntry f → List Check
  key_checks i k =
      (is_blank k.key, numbered "auth.api_keys" i ".key must not be empty")
      ∷ (is_blank k.client_id, numbered "auth.api_keys" i ".client_id must not be empty")
      ∷ []

  abbrev pub auth_checks : AuthConfig f → List Check
  auth_checks a =
      (
        a.enabled && is_empty a.api_keys,
        "auth.api_keys must contain at least one entry when auth is enabled",
      )
      ∷ each key_checks 0 a.api_keys

  -- `GatewayConfig::validate`: the errors, none if the configuration is valid.
  unfoldable pub validate : GatewayConfig f → List String
  validate c =
      failed_checks (server_checks c.server)
      ++ (failed_checks (redis_checks c.redis)
          ++ (failed_checks (each provider_checks 0 c.providers)
              ++ (failed_checks (compactor_checks c.compactor)
                  ++ (failed_checks (rate_limit_checks c.rate_limit)
                      ++ (failed_checks (circuit_breaker_checks c.circuit_breaker)
                          ++ failed_checks (auth_checks c.auth))))))
