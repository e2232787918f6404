-- ===== src/RouteConfig.antt =====
-- src/route_config.rs: the data of `routes.yaml`, its validation, the resolver and the reload.
-- `str::to_uppercase` goes by Unicode's tables and is the parameter `upper`; nothing is assumed of
-- it. Reading and parsing the file is the environment's: its result is an argument.
pub mod Valid
pub mod Resolve
pub mod Reload
mod Tests
use melis.Common.{
  ℕ, suc, String, Bool, true, false, not, ◌&&◌, ◌||◌, Option, none, some, List, [], ◌∷◌, ◌++◌, map,
  unwrap_or, contains, is_empty, is_blank, lookup, insert, get_elem?, string_eq, pair_eq,
  if◌then◌else◌,
}
use melis.Float.{F64}
use melis.Config.{CompactorConfig}

-- A provider of a route, with its share of the load. The weight is a `u32`.
pub record WeightedProvider : Type 0 where
  pub name : String
  pub weight : ℕ
  pub model : String

abbrev pub known_providers : List String
known_providers =
    "openai" ∷ "anthropic" ∷ "google_vertex_ai" ∷ "vertex_anthropic" ∷ "oci_genai" ∷ "ollama" ∷ []

pub data RoutesConfigError : Type 0 where
  io_error : String → RoutesConfigError
  parse_error : String → RoutesConfigError
  missing_field : (route_index : ℕ) (field : String) → RoutesConfigError
  invalid_provider : (route_index : ℕ) (provider : String) → RoutesConfigError
  invalid_strategy : (route_index : ℕ) (strategy : String) → RoutesConfigError
  duplicate_route : (path method : String) (first second : ℕ) → RoutesConfigError

pub data TokenOptimizationStrategy : Type 0 where
  adaptive_trimming sliding_window semantic_guarded_trimming no_strategy : TokenOptimizationStrategy

pub record CustomProviderDef : Type 0 where
  pub name : String
  pub base_url : String
  pub api_format : String

module _ (f : F64) where
  open f use {Carrier}

  pub record TokenOptimizationConfig : Type 0 where
    pub strategy : TokenOptimizationStrategy
    pub max_history_messages : ℕ
    pub compress_above_tokens : ℕ
    pub local_tokenizer : String
    pub target_token_ratio : Option Carrier
    pub min_final_tokens : Option ℕ
    pub critical_markers : Option (List String)

  pub record RouteDefinition : Type 0 where
    pub path : String
    pub method : String
    pub provider : Option String
    pub model : Option String
    pub providers : Option (List WeightedProvider)
    pub token_optimization : Option TokenOptimizationConfig

  pub record RouteConfigFile : Type 0 where
    pub routes : List RouteDefinition
    pub custom_providers : List CustomProviderDef

-- An error under a condition.
abbrev pub error_if : Bool → RoutesConfigError → List RoutesConfigError
error_if true e = e ∷ []
error_if false e = []

abbrev pub option_has {ℓ} : {A : Type ℓ} → (A → Bool) → Option A → Bool
option_has p none = false
option_has p (some a) = p a

abbrev pub is_known : (custom_names : List String) → String → Bool
is_known custom_names name = contains known_providers name || contains custom_names name

-- The errors of the `providers` list.
unfoldable pub provider_errors :
    (custom_names : List String) → ℕ → List WeightedProvider → List RoutesConfigError
provider_errors custom_names idx [] = []
provider_errors custom_names idx (p ∷ ps) =
    error_if (not (is_known custom_names p.name)) (invalid_provider idx p.name)
    ++ provider_errors custom_names idx ps

abbrev pub list_errors :
    (custom_names : List String) → ℕ → Option (List WeightedProvider) → List RoutesConfigError
list_errors custom_names idx none = []
list_errors custom_names idx (some ps) = provider_errors custom_names idx ps

abbrev pub single_errors : (custom_names : List String) → ℕ → Option String → List RoutesConfigError
single_errors custom_names idx none = []
single_errors custom_names idx (some p) =
    error_if (not (is_blank p) && not (is_known custom_names p)) (invalid_provider idx p)

-- The index at which each (path, METHOD) was first seen.
abbrev pub Seen : Type 0
Seen = List ((String × String) × ℕ)

module _ (f : F64) (upper : String → String) where
  abbrev pub route_key : RouteDefinition f → String × String
  route_key r = (r.path, upper r.method)

  abbrev pub has_provider : RouteDefinition f → Bool
  has_provider r =
      option_has (λ p. not (is_blank p)) r.provider
      || option_has (λ ps. not (is_empty ps)) r.providers

  -- The checks of one route, but for duplicates.
  unfoldable pub route_errors :
      (custom_names : List String) → ℕ → RouteDefinition f → List RoutesConfigError
  route_errors custom_names idx r =
      error_if (is_blank r.path) (missing_field idx "path")
      ++ (error_if (is_blank r.method) (missing_field idx "method")
          ++ (error_if (not (has_provider r)) (missing_field idx "provider ou providers")
              ++ (single_errors custom_names idx r.provider
                  ++ list_errors custom_names idx r.providers)))

  abbrev pub is_keyed : RouteDefinition f → Bool
  is_keyed r = not (is_blank r.path) && not (is_blank r.method)

  abbrev pub duplicate_errors : ℕ → RouteDefinition f → Option ℕ → List RoutesConfigError
  duplicate_errors idx r none = []
  duplicate_errors idx r (some first) = duplicate_route r.path r.method first idx ∷ []

  abbrev pub remember : ℕ → RouteDefinition f → Option ℕ → Seen → Seen
  remember idx r none seen = insert (route_key r) idx seen
  remember idx r (some first) seen = seen

  -- The loop over the routes.
  unfoldable pub routes_errors :
      (custom_names : List String) → ℕ → Seen → List (RouteDefinition f) → List RoutesConfigError
  routes_errors custom_names idx seen [] = []
  routes_errors custom_names idx seen (r ∷ rs) =
      let first = lookup (route_key r) seen in
      route_errors custom_names idx r
      ++ ((if is_keyed r then duplicate_errors idx r first else [])
          ++ routes_errors custom_names (suc idx)
              (if is_keyed r then remember idx r first seen else seen) rs)

  -- `validate`: the errors found, none if the configuration is valid.
  unfoldable pub validate : RouteConfigFile f → List RoutesConfigError
  validate config = routes_errors (map (λ c. c.name) config.custom_providers) 0 [] config.routes

  pub record RouteResolver : Type 0 where
    pub config : RouteConfigFile f
    pub table : Seen

  -- The loop of `RouteResolver::new`.
  unfoldable pub build_table : ℕ → List (RouteDefinition f) → Seen → Seen
  build_table idx [] table = table
  build_table idx (r ∷ rs) table = build_table (suc idx) rs (insert (route_key r) idx table)

  unfoldable pub new_resolver : RouteConfigFile f → RouteResolver
  new_resolver config = record { config = config; table = build_table 0 config.routes [] }

  abbrev pub route_at : List (RouteDefinition f) → Option ℕ → Option (RouteDefinition f)
  route_at routes none = none
  route_at routes (some idx) = get_elem? routes idx

  -- The indexing `routes[idx]` would panic out of range; `none` stands for that too, and the
  -- theorems on `resolve_route` show that it does not happen.
  unfoldable pub resolve_route : RouteResolver → (path method : String) → Option (RouteDefinition f)
  resolve_route resolver path method =
      route_at resolver.config.routes (lookup (path, upper method) resolver.table)

  -- What `load_routes` returns.
  pub data Loaded : Type 0 where
    loaded : RouteConfigFile f → Loaded
    unreadable : RoutesConfigError → Loaded

  -- `RouteConfigManager::new`, up to the watcher: `none` is the panic on an invalid file.
  unfoldable pub start : Loaded → Option RouteResolver
  start (loaded config) = if is_empty (validate config) then some (new_resolver config) else none
  start (unreadable e) = none

  -- `try_reload`: the resolver is swapped only for a valid file.
  unfoldable pub try_reload : RouteResolver → Loaded → RouteResolver
  try_reload current (loaded config) =
      if is_empty (validate config) then new_resolver config else current
  try_reload current (unreadable e) = current

abbrev strategy_name : TokenOptimizationStrategy → String
strategy_name adaptive_trimming = "adaptive_trimming"
strategy_name sliding_window = "sliding_window"
strategy_name semantic_guarded_trimming = "semantic_guarded_trimming"
strategy_name no_strategy = "none"

module _ (f : F64) where
  abbrev optimized : CompactorConfig f → TokenOptimizationConfig f → CompactorConfig f
  optimized global opt = record {
    token_threshold = opt.compress_above_tokens;
    max_history_messages = opt.max_history_messages;
    stop_words = global.stop_words;
    tokenizer_name = opt.local_tokenizer;
    target_token_ratio = unwrap_or opt.target_token_ratio global.target_token_ratio;
    min_final_tokens = unwrap_or opt.min_final_tokens global.min_final_tokens;
    critical_markers = unwrap_or opt.critical_markers global.critical_markers;
    preserve_critical_markers = global.preserve_critical_markers;
    strategy = strategy_name opt.strategy;
  }

  abbrev optimized_or : CompactorConfig f → Option (TokenOptimizationConfig f) → CompactorConfig f
  optimized_or global none = global
  optimized_or global (some opt) = optimized global opt

  unfoldable pub effective_token_config : RouteDefinition f → CompactorConfig f → CompactorConfig f
  effective_token_config route global = optimized_or global route.token_optimization
