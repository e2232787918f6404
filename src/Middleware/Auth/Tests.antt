-- ===== src/Middleware/Auth/Tests.antt =====
-- Authentication of concrete headers, and its theorems at them.
use Prim.Native.String.{◌++◌ as ◌⧺◌}
use melis.Common.{◌≡◌, refl, ◌↔◌, ◌≢◌, String, true, none, some, [], ◌∷◌, string_eq}
use melis.Float.{hundredths}
use melis.Error.{ok, err}
use melis.Config.{ApiKeyEntry, AuthConfig}
use melis.Middleware.Auth.{
  split_space, eq_ignore_ascii_case, bearer_token, missing_header, invalid_format, invalid_key,
  identity_of, validate, auth_middleware,
}
use melis.Middleware.Auth.Laws.{space, no_space, bearer_token_iff, IsFirst, auth_middleware_iff}

auth : Unit {0}
unfolding auth_middleware validate bearer_token split_space eq_ignore_ascii_case
auth = tt

abbrev entry : ApiKeyEntry hundredths
entry = record { key = "sk-1"; client_id = "alpha"; allowed_models = []; rate_limit = none }

abbrev config : AuthConfig hundredths
config = record { enabled = true; api_keys = entry ∷ [] }

auth_middleware_tests :
    (auth_middleware hundredths config (some "Bearer sk-1") ≡ ok (identity_of hundredths entry))
    × (auth_middleware hundredths config (some "bEARER sk-1") ≡ ok (identity_of hundredths entry))
    × (auth_middleware hundredths config (some "Bearer sk-2") ≡ err invalid_key)
    × (auth_middleware hundredths config (some "Bearer  sk-1") ≡ err invalid_key)
    × (auth_middleware hundredths config (some "Bearer ") ≡ err invalid_format)
    × (auth_middleware hundredths config (some "sk-1") ≡ err invalid_format)
    × (auth_middleware hundredths config none ≡ err missing_header)
unfolding auth
auth_middleware_tests = (refl, refl, refl, refl, refl, refl, refl)

bearer_token_iff_example : (bearer_token (some "Bearer sk-1") ≡ ok "sk-1") ↔ (
    (scheme : String) × (◌≡◌ {A = String} "Bearer sk-1" (scheme ⧺ (String.◌∷◌ space "sk-1")))
    × (no_space scheme ≡ true)
    × (eq_ignore_ascii_case scheme "Bearer" ≡ true)
    × (◌≢◌ {A = String} "sk-1" ""))
bearer_token_iff_example = bearer_token_iff "Bearer sk-1" "sk-1"

auth_middleware_iff_example :
    (auth_middleware hundredths config (some "Bearer sk-1") ≡ ok (identity_of hundredths entry)) ↔ (
      (token : String) × (e : ApiKeyEntry hundredths) × (bearer_token (some "Bearer sk-1")
        ≡ ok token)
      × IsFirst hundredths config.api_keys token e
      × (identity_of hundredths entry ≡ identity_of hundredths e))
auth_middleware_iff_example =
    auth_middleware_iff hundredths config (some "Bearer sk-1") (identity_of hundredths entry)
