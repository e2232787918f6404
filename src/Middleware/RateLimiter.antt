-- ===== src/Middleware/RateLimiter.antt =====
-- src/middleware/rate_limiter.rs: the token bucket kept in memory, and the middleware around it.
-- Instants are nanoseconds. A call reads the clock twice: `now` on entry, and `later` where it asks
-- for the time elapsed since the last refill.
pub mod Bounds
pub mod Burst
pub mod Refusals
mod Tests
use melis.Common.{
  ℕ, ◌+◌, ◌-◌, ◌/◌, ◌%◌, String, Bool, Option, none, some, List, lookup, insert, string_eq, nat_eq,
  ◌==◌, to_string, if◌then◌else◌,
}
use melis.Float.{F64}
use melis.Error.{GatewayError, Result, ok, err}
use melis.Error
use melis.CircuitBreaker.{nanos}
use melis.Config.{ClientRateLimit}
use melis.Middleware.Auth.{ClientIdentity}
use melis.Middleware.{Response}

pub data Acquired : Type 0 where
  allowed : (remaining : ℕ) → Acquired
  exceeded : (retry_after_secs : ℕ) → Acquired

module _ (f : F64) where
  open f use {Carrier, of_u64, to_u64, lit, add, sub, mul, div, fmin, ceil, le}

  pub record RateLimitConfig : Type 0 where
    pub burst_capacity : ℕ
    pub refill_rate : Carrier

  pub record BucketState : Type 0 where
    pub tokens : Carrier
    pub last_refill : ℕ

  abbrev pub Buckets : Type 0
  Buckets = List (String × BucketState)

  abbrev pub one : Carrier
  one = lit 10 1

  -- `Duration::as_secs_f64`.
  abbrev pub as_secs_f64 : ℕ → Carrier
  as_secs_f64 d = add (of_u64 (d / nanos)) (div (of_u64 (d % nanos)) (of_u64 nanos))

  abbrev pub or_full : RateLimitConfig → (now : ℕ) → Option BucketState → BucketState
  or_full config now none = record { tokens = of_u64 config.burst_capacity; last_refill = now }
  or_full config now (some bucket) = bucket

  -- The tokens after the refill.
  unfoldable pub refill : RateLimitConfig → (later : ℕ) → BucketState → Carrier
  refill config later bucket =
      fmin (of_u64 config.burst_capacity)
        (add bucket.tokens (mul (as_secs_f64 (later - bucket.last_refill)) config.refill_rate))

  unfoldable pub take_token :
      RateLimitConfig → (now : ℕ) → BucketState → (refilled : Carrier) → BucketState × Acquired
  take_token config now bucket refilled =
      if le one refilled
      then (record { tokens = sub refilled one; last_refill = now }, allowed (to_u64 refilled - 1))
      else (bucket, exceeded (to_u64 (ceil (div (sub one refilled) config.refill_rate))))

  -- `LocalTokenBucket::try_acquire`; the lock makes it atomic.
  unfoldable pub try_acquire :
      (now later : ℕ) → String → RateLimitConfig → Buckets → Buckets × Acquired
  try_acquire now later client_id config buckets =
      let bucket = or_full config now (lookup client_id buckets) in
      let (bucket', result) = take_token config now bucket (refill config later bucket) in
      (insert client_id bucket' buckets, result)

  -- The per-client limit, or the gateway's default.
  abbrev pub effective_config : RateLimitConfig → Option (ClientRateLimit f) → RateLimitConfig
  effective_config default none = default
  effective_config default (some limit) = record {
    burst_capacity = limit.burst_capacity;
    refill_rate = limit.refill_rate;
  }

  -- What the middleware makes of the limiter's answer.
  unfoldable pub answer : Acquired → Response → Result Response
  answer (allowed remaining) next =
      ok (record next {
        headers = insert "X-RateLimit-Remaining" (to_string remaining) next.headers;
      })
  answer (exceeded retry_after_secs) next =
      if retry_after_secs == 0 then ok next else err (Error.rate_limited retry_after_secs)

  -- `rate_limit_middleware`: `next` is what the rest of the pipeline answers.
  unfoldable pub rate_limit_middleware :
      (now later : ℕ)
      → RateLimitConfig
      → Option (ClientIdentity f)
      → Response
      → Buckets
      → Buckets × Result Response
  unfolding answer
  rate_limit_middleware now later default none next buckets = (buckets, ok next)
  rate_limit_middleware now later default (some identity) next buckets =
      let config = effective_config default identity.rate_limit_config in
      let (buckets', result) = try_acquire now later identity.client_id config buckets in
      (buckets', answer result next)
