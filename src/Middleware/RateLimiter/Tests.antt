-- ===== src/Middleware/RateLimiter/Tests.antt =====
-- Runs of the token bucket over fixed-point numbers, and its theorems at inputs that meet their
-- hypotheses.
use melis.Common.{
  lookup, ℕ, ◌≡◌, ◌≢◌, refl, ◌↔◌, String, none, some, List, [], ◌∷◌, string_eq, arith, insert,
}
use melis.Float.{hundredths, hundredths-IsOrdered, hundredths-IsExact}
use melis.Error.{rate_limited, ok, err}
use melis.Middleware.{Response}
use melis.Middleware.Auth.{ClientIdentity}
use melis.Middleware.RateLimiter.{
  allowed, exceeded, RateLimitConfig, Buckets, refill, take_token, try_acquire, effective_config,
  rate_limit_middleware, as_secs_f64,
}
use melis.Middleware.RateLimiter.Bounds.{IsWithin, run, run-IsWithin}
use melis.Middleware.RateLimiter.Burst.{burst, countdown, full_wait, burst-eq-countdown}
use melis.Middleware.RateLimiter.Refusals.{IsLevel, IsWait, rate_limit_middleware_refuses_iff}

limiter : Unit {0}
unfolding rate_limit_middleware try_acquire take_token refill run burst countdown
limiter = tt

-- Two tokens, and half a token a second.
abbrev config : RateLimitConfig hundredths
config = record { burst_capacity = 2; refill_rate = 50 }

abbrev config_of : String → RateLimitConfig hundredths
config_of id = config

abbrev second : ℕ
second = 1_000_000_000

burst_test :
    burst hundredths 4 second "a" config [] ≡ allowed 1 ∷ allowed 0 ∷ exceeded 2 ∷ exceeded 2 ∷ []
unfolding limiter
burst_test = refl

abbrev calls : List (ℕ × (ℕ × String))
calls = (second, (second, "a")) ∷ (second, (second, "b")) ∷ (second, (second, "a")) ∷ []

last_bucket :
    lookup "a" (run hundredths hundredths-IsOrdered config_of calls [])
    ≡ some (record { tokens = 0; last_refill = second })
unfolding limiter
last_bucket = refl

run-IsWithin_example :
    IsWithin hundredths (config_of "a") (record { tokens = 0; last_refill = second })
run-IsWithin_example =
    run-IsWithin hundredths hundredths-IsOrdered config_of calls "a"
      (record { tokens = 0; last_refill = second }) last_bucket

first_call : (try_acquire hundredths second second "a" config []).1 ≡ allowed 1
unfolding limiter
first_call = refl

steady :
    (n : ℕ)
    → hundredths.add
        (hundredths.of_u64 n)
        (hundredths.mul (as_secs_f64 hundredths 0) config.refill_rate)
      ≡ hundredths.of_u64 n
steady n = omega arith

burst-eq-countdown_example :
    burst hundredths 4 second "a" config []
    ≡ countdown 4 2 (full_wait hundredths hundredths-IsExact config (omega arith) steady)
burst-eq-countdown_example =
    burst-eq-countdown hundredths hundredths-IsExact config (omega arith) steady 4 second "a" []
      refl

abbrev page : Response
page = record { status = 200; headers = []; body = "" }

abbrev alice : ClientIdentity hundredths
alice = record { client_id = "a"; rate_limit_config = none; allowed_models = [] }

abbrev spent : Buckets hundredths
spent = insert "a" (record { tokens = 0; last_refill = second }) []

middleware_tests :
    ((rate_limit_middleware hundredths second second config (some alice) page spent).1
      ≡ err (rate_limited 2))
    × ((rate_limit_middleware hundredths second second config none page spent).1 ≡ ok page)
unfolding limiter
middleware_tests = (refl, refl)

rate_limit_middleware_refuses_iff_example :
    ((rate_limit_middleware hundredths second second config (some alice) page spent).1
      ≡ err (rate_limited 2))
    ↔ ((who : ClientIdentity hundredths) × (secs : ℕ) × (x : ℕ) × (some alice ≡ some who)
        × IsLevel hundredths
            (effective_config hundredths config who.rate_limit_config)
            second
            second
            who.client_id
            spent
            x
        × IsWait hundredths (effective_config hundredths config who.rate_limit_config) x secs
        × (secs ≢ 0)
        × (rate_limited 2 ≡ rate_limited secs))
rate_limit_middleware_refuses_iff_example =
    rate_limit_middleware_refuses_iff hundredths second second config (some alice) page spent
      (rate_limited 2)
