-- ===== src/CircuitBreaker/Tests.antt =====
-- Runs of the breaker over fixed-point numbers, and its theorems at inputs that meet their
-- hypotheses.
use melis.Common.{
  ℕ, ◌+◌, ◌*◌, ◌<◌, ◌^◌, min, ◌≡◌, refl, ◌≢◌, String, true, false, List, [], ◌∷◌, arith, string_eq,
  string_beq_iff, insert,
}
use melis.Float.{hundredths}
use melis.CircuitBreaker.{
  success, failure, rate_limited, timeout, opened, new_provider, from_secs, CircuitBreakerConfig,
  initial_ttl, prune_window, push_result, react, record_one, check, is_available_one, next_backoff,
  States, entry, is_available, record_result,
}
use melis.CircuitBreaker.Runs.{Call, ask, report, run, after, IsSound, run-IsSound}
use melis.CircuitBreaker.Machine.{Step, after-Step, run_blocked}
use melis.CircuitBreaker.Recovery.{probe_recovers, probe_doubles}

breaker : Unit {0}
unfolding run is_available record_result record_one react push_result prune_window is_available_one
    check next_backoff
breaker = tt

-- Opens above 50 %, with two requests or more in a minute; 30 s at first, 300 s at most, factor 2.
abbrev config : CircuitBreakerConfig hundredths
config = record {
  failure_threshold_percent = 5000;
  window_duration_secs = 60;
  min_requests_in_window = 2;
  open_ttl_secs = 30;
  max_ttl_secs = 300;
  backoff_factor = 200;
}

abbrev at : ℕ → ℕ
at secs = from_secs secs

abbrev tripped : List (ℕ × Call)
tripped =
    (at 100, report "a" success) ∷ (at 101, report "a" failure) ∷ (at 102, report "a" timeout) ∷ []

abbrev Table : Type 0
Table = States hundredths config

abbrev table : Table
table =
    insert "a"
      (record {
        state = opened (at 132) (at 30);
        failures = at 101 ∷ at 102 ∷ [];
        total_requests = at 100 ∷ at 101 ∷ at 102 ∷ [];
        current_backoff = at 30;
      })
      []

run_trips : run hundredths config tripped [] ≡ table
unfolding breaker
run_trips = refl

rate_limit_trips :
    (entry hundredths config "a"
      (run hundredths config ((at 5, report "a" rate_limited) ∷ []) [])).state
    ≡ opened (at 35) (at 30)
unfolding breaker
rate_limit_trips = refl

old_requests_leave :
    (entry hundredths config "a" (
      run hundredths config
        ((at 100, report "a" failure) ∷ (at 200, report "a" success) ∷ [])
        [])).total_requests
    ≡ at 200 ∷ []
unfolding breaker
old_requests_leave = refl

run-IsSound_example :
    IsSound hundredths config (entry hundredths config "a" (run hundredths config tripped []))
run-IsSound_example = run-IsSound hundredths config tripped "a"

not_about_b : ◌≢◌ {A = String} "a" "b"
not_about_b = ground (arith, string_beq_iff "a" "b")

after-Step_example :
    Step hundredths config
      (at 132)
      (entry hundredths config "a" table).state
      (entry hundredths config "a" (after hundredths config (at 132) (ask "a") table)).state
after-Step_example = after-Step hundredths config (at 132) (ask "a") table "a"

run_blocked_example :
    ((entry hundredths config "a"
        (run hundredths config ((at 110, ask "a") ∷ (at 111, report "a" success) ∷ []) table)).state
      ≡ opened (at 132) (at 30))
    × ((is_available hundredths config
          (at 131)
          "a"
          (run hundredths config ((at 110, ask "a") ∷ (at 111, report "a" success) ∷ []) table)).1
        ≡ false)
run_blocked_example =
    run_blocked hundredths config ((at 110, ask "a") ∷ (at 111, report "a" success) ∷ []) table "a"
      (at 132) (at 30) (at 131) refl (omega arith) (omega arith)

probe_recovers_example :
    ((is_available hundredths config (at 132) "a" table).1 ≡ true)
    × (entry hundredths config "a"
          (run hundredths config ((at 132, ask "a") ∷ (at 133, report "a" success) ∷ []) table)
        ≡ new_provider (initial_ttl hundredths config))
probe_recovers_example =
    probe_recovers hundredths config table "a" (at 132) (at 30) (at 132) (at 133) refl (omega arith)

factor_doubles :
    (n : ℕ)
    → n < 2 ^ 52
    → hundredths.to_u64 (hundredths.mul (hundredths.of_u64 n) config.backoff_factor) ≡ 2 * n
factor_doubles n h = omega arith

probe_doubles_example :
    (entry hundredths config "a"
      (run hundredths config ((at 132, ask "a") ∷ (at 133, report "a" failure) ∷ []) table)).state
    ≡ opened
        (at 133 + from_secs (min (2 * 30) config.max_ttl_secs))
        (from_secs (min (2 * 30) config.max_ttl_secs))
probe_doubles_example =
    probe_doubles hundredths config factor_doubles table "a" (at 132) (at 30) (at 132) (at 133) 30
      failure refl refl (omega arith) (omega arith) (omega arith) refl
