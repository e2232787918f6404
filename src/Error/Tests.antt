-- ===== src/Error/Tests.antt =====
-- The responses to some errors.
use melis.Common.{◌≡◌, refl, none, some, to_string}
use melis.Error.{payload_too_large, rate_limited, provider_error, into_response}

into_response_tests :
    (into_response (rate_limited 42) ≡ record {
      status = 429;
      error = record {
        message = "Rate limit exceeded. Retry after 42 seconds.";
        error_type = "rate_limit_error";
        code = none;
      };
      retry_after = some "42";
    })
    × ((into_response payload_too_large).status ≡ 413)
    × ((into_response payload_too_large).retry_after ≡ none)
    × ((into_response (provider_error "down")).error
        ≡ record { message = "down"; error_type = "provider_error"; code = none })
unfolding into_response to_string
into_response_tests = (refl, refl, refl, refl)
