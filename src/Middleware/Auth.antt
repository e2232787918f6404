-- ===== src/Middleware/Auth.antt =====
-- src/middleware/auth.rs: the bearer token of the `Authorization` header, looked up in the
-- configured keys.
pub mod Laws
mod Tests
use Prim.Native.Char.{Char, code}
use Prim.Native.String
use melis.Common.{
  ℕ, ◌+◌, String, Bool, true, false, not, ◌&&◌, ◌||◌, Option, none, some, List, [], ◌∷◌, find, leb,
  ltb, nat_eq, string_eq, ◌==◌, if◌then◌else◌, nat_beq,
}
use melis.Float.{F64}
use melis.Error.{GatewayError, unauthorized, Result, ok, err, ◌>>=◌}
use melis.Config.{ClientRateLimit, ApiKeyEntry, AuthConfig}

-- `splitn(2, ' ')`: the text before the first space, and what follows it if there is one.
unfoldable pub split_space : String → String × Option String
split_space String.[] = ("", none)
split_space (String.◌∷◌ c s) =
    let (before, rest) = split_space s in
    if nat_beq (code c) b' ' then ("", some s) else (String.◌∷◌ c before, rest)

abbrev pub to_ascii_lowercase : ℕ → ℕ
to_ascii_lowercase c = if leb b'A' c && leb c b'Z' then c + 32 else c

-- `eq_ignore_ascii_case`.
unfoldable pub eq_ignore_ascii_case : String → String → Bool
eq_ignore_ascii_case String.[] String.[] = true
eq_ignore_ascii_case String.[] (String.◌∷◌ d t) = false
eq_ignore_ascii_case (String.◌∷◌ c s) String.[] = false
eq_ignore_ascii_case (String.◌∷◌ c s) (String.◌∷◌ d t) =
    nat_beq (to_ascii_lowercase (code c)) (to_ascii_lowercase (code d)) && eq_ignore_ascii_case s t

abbrev pub missing_header : GatewayError
missing_header = unauthorized "Missing Authorization header"

abbrev pub invalid_format : GatewayError
invalid_format = unauthorized "Invalid Authorization format. Expected 'Bearer <token>'"

abbrev pub invalid_key : GatewayError
invalid_key = unauthorized "Invalid API key"

-- The token of the header's value, which is absent if it is not text.
unfoldable pub bearer_token : Option String → Result String
bearer_token none = err missing_header
bearer_token (some value) =
    let (scheme, rest) = split_space value in
    elim rest [
      | none ↦ err invalid_format
      | some token ↦
          if not (eq_ignore_ascii_case scheme "Bearer") || token == ""
          then err invalid_format
          else ok token
    ]

module _ (f : F64) where
  pub record ClientIdentity : Type 0 where
    pub client_id : String
    pub rate_limit_config : Option (ClientRateLimit f)
    pub allowed_models : List String

  abbrev pub identity_of : ApiKeyEntry f → ClientIdentity
  identity_of entry = record {
    client_id = entry.client_id;
    rate_limit_config = entry.rate_limit;
    allowed_models = entry.allowed_models;
  }

  abbrev identity_or_invalid : Option (ApiKeyEntry f) → Result ClientIdentity
  identity_or_invalid none = err invalid_key
  identity_or_invalid (some entry) = ok (identity_of entry)

  -- `ConfigAuthValidator::validate`.
  unfoldable pub validate : AuthConfig f → String → Result ClientIdentity
  validate config token = identity_or_invalid (find (λ entry. entry.key == token) config.api_keys)

  -- `auth_middleware`, up to the identity that it hands to the next layer.
  unfoldable pub auth_middleware : AuthConfig f → Option String → Result ClientIdentity
  auth_middleware config header = do token ← bearer_token header; validate config token
