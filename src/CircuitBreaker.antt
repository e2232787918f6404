-- ===== src/CircuitBreaker.antt =====
-- src/circuit_breaker.rs: the circuit breaker of each provider, kept in memory. Instants and
-- durations are nanoseconds; instant 0 is the earliest that the platform represents. The lock makes
-- each call atomic, so a call is a function of the table and of `Instant::now()`.
pub mod Window
pub mod Runs
pub mod Machine
pub mod Recovery
mod Tests
use melis.Common.{
  ℕ, suc, ◌+◌, ◌-◌, ◌*◌, ◌/◌, ◌^◌, String, Bool, true, false, not, ◌||◌, Option, none, some, List,
  [], ◌∷◌, ◌++◌, keep, length, ltb, leb, min, max, lookup, insert, string_eq, if◌then◌else◌,
}
use melis.Float.{F64}

pub data CallResult : Type 0 where
  success failure rate_limited timeout : CallResult

pub data CircuitState : Type 0 where
  closed : CircuitState
  opened : (until backoff_ttl : ℕ) → CircuitState
  half_open : CircuitState

pub record ProviderState : Type 0 where
  pub state : CircuitState
  pub failures : List ℕ
  pub total_requests : List ℕ
  pub current_backoff : ℕ

abbrev pub new_provider : ℕ → ProviderState
new_provider initial_ttl = record {
  state = closed;
  failures = [];
  total_requests = [];
  current_backoff = initial_ttl;
}

abbrev pub nanos : ℕ
nanos = 10 ^ 9

-- `Duration::from_secs` and `Duration::as_secs`.
abbrev pub from_secs : ℕ → ℕ
from_secs secs = secs * nanos

abbrev pub as_secs : ℕ → ℕ
as_secs duration = duration / nanos

-- `Instant::checked_sub`, then `unwrap_or(now)`.
abbrev pub cutoff : (window now : ℕ) → ℕ
cutoff window now = if leb window now then now - window else now

unfoldable pub prune_window : List ℕ → (window now : ℕ) → List ℕ
prune_window timestamps window now = keep (λ t. ltb (cutoff window now) t) timestamps

abbrev pub is_failure : CallResult → Bool
is_failure failure = true
is_failure timeout = true
is_failure _ = false

abbrev pub is_rate_limited : CallResult → Bool
is_rate_limited rate_limited = true
is_rate_limited _ = false

abbrev pub is_success : CallResult → Bool
is_success success = true
is_success _ = false

-- One provider's part of `is_available`.
unfoldable pub check : (now : ℕ) → CircuitState → CircuitState × Bool
check now closed = (closed, true)
check now (opened until ttl) =
    if leb until now then (half_open, true) else (opened until ttl, false)
check now half_open = (half_open, true)

module _ (f : F64) where
  open f use {Carrier, of_u64, to_u64, lit, mul, div, lt}

  pub record CircuitBreakerConfig : Type 0 where
    pub failure_threshold_percent : Carrier
    pub window_duration_secs : ℕ
    pub min_requests_in_window : ℕ
    pub open_ttl_secs : ℕ
    pub max_ttl_secs : ℕ
    pub backoff_factor : Carrier

module _ (f : F64) (config : CircuitBreakerConfig f) where
  open f use {Carrier, of_u64, to_u64, lit, mul, div, lt}

  abbrev pub initial_ttl : ℕ
  initial_ttl = from_secs config.open_ttl_secs

  abbrev pub window : ℕ
  window = from_secs config.window_duration_secs

  -- The failure rate in percent is above the threshold.
  abbrev pub over_threshold : (failures total : ℕ) → Bool
  over_threshold failures total =
      lt config.failure_threshold_percent (mul (div (of_u64 failures) (of_u64 total)) (lit 100 0))

  -- The new time-to-live after a failed probe, in nanoseconds.
  unfoldable pub next_backoff : ℕ → ℕ
  next_backoff current =
      let base_secs = max (as_secs current) 1 in
      let new_ttl_secs = to_u64 (mul (of_u64 base_secs) config.backoff_factor) in
      from_secs (min new_ttl_secs config.max_ttl_secs)

  abbrev pub trip : (now ttl : ℕ) → ProviderState → ProviderState
  trip now ttl p = record p { state = opened (now + ttl) ttl; current_backoff = ttl }

  -- The windows after the push of `now` and the pruning.
  unfoldable pub push_result : (now : ℕ) → CallResult → ProviderState → ProviderState
  push_result now result p = record p {
    total_requests = prune_window (p.total_requests ++ now ∷ []) window now;
    failures =
        prune_window
          (if is_failure result || is_rate_limited result
            then p.failures ++ now ∷ []
            else p.failures)
          window now;
  }

  -- The `match` on the state; its first argument is the state of `p`.
  unfoldable pub react : CircuitState → (now : ℕ) → CallResult → ProviderState → ProviderState
  react closed now result p =
      if is_rate_limited result
      then trip now initial_ttl p
      else if leb config.min_requests_in_window (length p.total_requests)
      then if over_threshold (length p.failures) (length p.total_requests)
        then trip now initial_ttl p
        else p
      else p
  react half_open now result p =
      if is_success result
      then record p {
        state = closed;
        failures = [];
        total_requests = [];
        current_backoff = initial_ttl;
      }
      else trip now (next_backoff p.current_backoff) p
  react (opened until ttl) now result p = p

  -- One provider's part of `record_result`.
  unfoldable pub record_one : (now : ℕ) → CallResult → ProviderState → ProviderState
  record_one now result p = react p.state now result (push_result now result p)

  unfoldable pub is_available_one : (now : ℕ) → ProviderState → ProviderState × Bool
  is_available_one now p = let (s, free) = check now p.state in (record p { state = s }, free)

  abbrev pub States : Type 0
  States = List (String × ProviderState)

  abbrev or_new : Option ProviderState → ProviderState
  or_new none = new_provider initial_ttl
  or_new (some p) = p

  -- `entry(id).or_insert_with(new)`.
  abbrev pub entry : String → States → ProviderState
  entry id states = or_new (lookup id states)

  -- `LocalCircuitBreaker::is_available` and `record_result`.
  unfoldable pub is_available : (now : ℕ) → String → States → States × Bool
  is_available now id states =
      let (p, free) = is_available_one now (entry id states) in (insert id p states, free)

  unfoldable pub record_result : (now : ℕ) → String → CallResult → States → States
  record_result now id result states = insert id (record_one now result (entry id states)) states

-- `RedisCircuitBreaker`, a placeholder that always lets a request through.
unfoldable pub redis_is_available : String → Bool
redis_is_available id = true
