-- ===== src/Config/Load.antt =====
-- src/config.rs: reading the configuration. What the file system has, and what `serde_yaml` makes of
-- a text, an error's text or a configuration, are the parameters `read_file` and `parse`; `env` and
-- `parse_u16` are as for the overrides.
use melis.Common.{ℕ, String, Option, List, [], ◌∷◌, unwrap_or, ◌≡◌, refl, subst, ◌↔◌, ◌⊎◌, inl, inr}
use mathlib.Core.Sum.{inr-injective}
use melis.Float.{F64}
use melis.Config.Gateway.{GatewayConfig, apply_env_overrides, validate}
use melis.Config.Valid.{IsGatewayConfig, validate_gateway_iff}

pub data ConfigError : Type 0 where
  io_error : (path source : String) → ConfigError
  parse_error : String → ConfigError
  validation_error : List String → ConfigError

module _ {f : F64} (show : f.Carrier → String) (read_file : String → String ⊎ String)
    (parse : String → String ⊎ GatewayConfig f) (env : String → Option String)
    (parse_u16 : String → Option ℕ) where
  abbrev unless_errors : GatewayConfig f → List String → ConfigError ⊎ GatewayConfig f
  unless_errors config [] = inr config
  unless_errors config (e ∷ es) = inl (validation_error (e ∷ es))

  abbrev checked : String ⊎ GatewayConfig f → ConfigError ⊎ GatewayConfig f
  checked (inl e) = inl (parse_error e)
  checked (inr config) =
      let config' = apply_env_overrides f env parse_u16 config in
      unless_errors config' (validate show config')

  unfoldable pub from_yaml : String → ConfigError ⊎ GatewayConfig f
  from_yaml yaml = checked (parse yaml)

  abbrev read_at : (path : String) → String ⊎ String → ConfigError ⊎ GatewayConfig f
  read_at path (inl e) = inl (io_error path e)
  read_at path (inr contents) = from_yaml contents

  unfoldable pub load : Option String → ConfigError ⊎ GatewayConfig f
  load path =
      let config_path = unwrap_or path "./config.yaml" in
      read_at config_path (read_file config_path)

  -- What was read and parsed on the way to a configuration.
  pub record IsLoaded (path : String) (config : GatewayConfig f) : Type 0 where
    pub contents : String
    pub parsed : GatewayConfig f
    pub was_read : read_file path ≡ inr contents
    pub was_parsed : parse contents ≡ inr parsed
    pub overridden : apply_env_overrides f env parse_u16 parsed ≡ config
    pub valid : IsGatewayConfig show config

  unless_errors_lem :
      (config c : GatewayConfig f) (errors : List String)
      → unless_errors config errors ≡ inr c
      → (errors ≡ []) × (config ≡ c)
  unless_errors_lem config c [] h = (refl, inr-injective config c h)
  unless_errors_lem config c (e ∷ es) h = cc

  checked_lem :
      (path contents : String) (c : GatewayConfig f) (r : String ⊎ GatewayConfig f)
      → read_file path ≡ inr contents
      → parse contents ≡ r
      → checked r ≡ inr c
      → IsLoaded path c
  checked_lem path contents c (inl e) was_read was_parsed h = cc
  checked_lem path contents c (inr parsed) was_read was_parsed h =
      let config = apply_env_overrides f env parse_u16 parsed in
      let (no_errors, overridden) = unless_errors_lem config c (validate show config) h in
      record {
        contents = contents;
        parsed = parsed;
        was_read = was_read;
        was_parsed = was_parsed;
        overridden = overridden;
        valid =
            subst (IsGatewayConfig show) overridden
              ((validate_gateway_iff show config).0 no_errors);
      }

  read_at_lem :
      (path : String) (c : GatewayConfig f) (file : String ⊎ String)
      → read_file path ≡ file
      → read_at path file ≡ inr c
      → IsLoaded path c
  unfolding from_yaml
  read_at_lem path c (inl e) was_read h = cc
  read_at_lem path c (inr contents) was_read h =
      checked_lem path contents c (parse contents) was_read refl h

  IsLoaded-read_at :
      (path : String) (c : GatewayConfig f)
      → IsLoaded path c
      → read_at path (read_file path) ≡ inr c
  unfolding from_yaml
  IsLoaded-read_at path c l =
      rw l.was_read
        (rw l.was_parsed (rw l.overridden (rw ((validate_gateway_iff show c).1 l.valid) refl)))

  -- The configuration `c` is loaded exactly when the file, by default ./config.yaml, can be read, its
  -- text parsed, the result with the overrides from the environment is `c`, and `c` passes the checks:
  -- the port, the sizes, the weights and the times named are positive; there is a Redis URL, and no
  -- URL, id, base URL, tokenizer's name, key or client id is blank; every provider has a known type
  -- and, but for Claude on Vertex AI, a key; the token threshold lies between 512 and 128000; the
  -- refill rate is not at most 0, the failure threshold neither at most 0 nor above 100, the backoff
  -- factor not below 1, and the longest time-to-live not below the first; and there is a key where
  -- authentication is enabled.
  pub load_iff :
      (path : Option String) (c : GatewayConfig f)
      → (load path ≡ inr c) ↔ IsLoaded (unwrap_or path "./config.yaml") c
  unfolding load
  load_iff path c =
      let config_path = unwrap_or path "./config.yaml" in
      (read_at_lem config_path c (read_file config_path) refl, IsLoaded-read_at config_path c)
