-- ===== src/Error.antt =====
-- src/error.rs: the gateway's errors, and the HTTP response that each becomes.
mod Tests
use Prim.Native.String.{◌++◌}
use melis.Common.{ℕ, ◌≡◌, refl, ◌⊎◌, inl, inr, String, Option, none, some, to_string}

pub data GatewayError : Type 0 where
  bad_request : String → GatewayError
  unauthorized : String → GatewayError
  rate_limited : (retry_after_secs : ℕ) → GatewayError
  payload_too_large : GatewayError
  service_unavailable : String → GatewayError
  internal : String → GatewayError
  provider_error : String → GatewayError

-- `Result<T, GatewayError>`.
pub data Result {ℓ} (T : Type ℓ) : Type ℓ where
  ok : T → Result T
  err : GatewayError → Result T

-- The operator `?` and early returns.
infixl 5 ◌>>=◌
abbrev pub ◌>>=◌ {ℓ κ} : {S : Type ℓ} {T : Type κ} (r : Result S) (next : S → Result T) → Result T
err failure >>= next = err failure
ok value >>= next = next value

pub Result-cases {ℓ} :
    {A : Type ℓ} (r : Result A) → ((e : GatewayError) × (r ≡ err e)) ⊎ ((a : A) × (r ≡ ok a))
Result-cases (ok a) = inr (a, refl)
Result-cases (err e) = inl (e, refl)

-- Inversion of a successful bind.
pub >>=-eq-ok {ℓ κ} :
    {S : Type ℓ} {T : Type κ} (r : Result S) (next : S → Result T) {result : T}
    → r >>= next ≡ ok result
    → (value : S) × (r ≡ ok value) × (next value ≡ ok result)
>>=-eq-ok (err failure) next h = cc
>>=-eq-ok (ok value) next h = (value, refl, h)

pub record ErrorDetail : Type 0 where
  pub message : String
  pub error_type : String
  pub code : Option String

-- What `into_response` builds: the status, the JSON body's detail and the `Retry-After` header.
pub record ErrorResponse : Type 0 where
  pub status : ℕ
  pub error : ErrorDetail
  pub retry_after : Option String

abbrev status_code : GatewayError → ℕ
status_code (bad_request msg) = 400
status_code (unauthorized msg) = 401
status_code (rate_limited secs) = 429
status_code payload_too_large = 413
status_code (service_unavailable msg) = 503
status_code (internal msg) = 500
status_code (provider_error msg) = 502

abbrev error_type_of : GatewayError → String
error_type_of (bad_request msg) = "invalid_request_error"
error_type_of (unauthorized msg) = "authentication_error"
error_type_of (rate_limited secs) = "rate_limit_error"
error_type_of payload_too_large = "invalid_request_error"
error_type_of (service_unavailable msg) = "service_error"
error_type_of (internal msg) = "internal_error"
error_type_of (provider_error msg) = "provider_error"

abbrev message_of : GatewayError → String
message_of (bad_request msg) = msg
message_of (unauthorized msg) = msg
message_of (rate_limited secs) =
    "Rate limit exceeded. Retry after " ++ (to_string secs ++ " seconds.")
message_of payload_too_large = "Payload size exceeds 10MB limit."
message_of (service_unavailable msg) = msg
message_of (internal msg) = msg
message_of (provider_error msg) = msg

abbrev retry_after_of : GatewayError → Option String
retry_after_of (rate_limited secs) = some (to_string secs)
retry_after_of _ = none

unfoldable pub into_response : GatewayError → ErrorResponse
into_response e = record {
  status = status_code e;
  error = record { message = message_of e; error_type = error_type_of e; code = none };
  retry_after = retry_after_of e;
}
