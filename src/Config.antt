-- ===== src/Config.antt =====
-- src/config.rs: the parts of the gateway's configuration that the other modules read.
pub mod Gateway
pub mod Valid
pub mod Load
mod Tests
use melis.Common.{ℕ, String, Bool, Option, List}
use melis.Float.{F64}

module _ (f : F64) where
  open f use {Carrier}

  pub record ClientRateLimit : Type 0 where
    pub burst_capacity : ℕ
    pub refill_rate : Carrier

  pub record ApiKeyEntry : Type 0 where
    pub key : String
    pub client_id : String
    pub allowed_models : List String
    pub rate_limit : Option ClientRateLimit

  pub record AuthConfig : Type 0 where
    pub enabled : Bool
    pub api_keys : List ApiKeyEntry

  pub record CompactorConfig : Type 0 where
    pub token_threshold : ℕ
    pub max_history_messages : ℕ
    pub stop_words : List String
    pub tokenizer_name : String
    pub target_token_ratio : Carrier
    pub min_final_tokens : ℕ
    pub critical_markers : List String
    pub preserve_critical_markers : Bool
    pub strategy : String

-- Weights are `u32`, seconds `u64`.
pub record ProviderConfig : Type 0 where
  pub id : String
  pub provider_type : String
  pub base_url : String
  pub api_key : String
  pub weight : ℕ
  pub timeout_secs : ℕ
  pub models : List String
  pub project_id : String
  pub region : String
