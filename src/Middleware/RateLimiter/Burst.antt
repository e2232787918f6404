-- ===== src/Middleware/RateLimiter/Burst.antt =====
-- A burst: calls for one client at one instant, so that nothing is refilled between them.
use melis.Common.{
  ℕ, zero, suc, ◌-◌, ◌≤◌, ◌<◌, ◌^◌, ◌≡◌, refl, ap, ◌∙◌, String, true, false, none, List, [], ◌∷◌,
  lookup, insert, lookup-insert_self, string_eq, arith,
}
use melis.Float.{F64, IsExact}
use melis.Middleware.RateLimiter.{
  Acquired, allowed, exceeded, RateLimitConfig, BucketState, Buckets, one, as_secs_f64, or_full,
  refill, take_token, try_acquire,
}

module _ (f : F64) where
  -- The answers to `n` calls at the instant `t`.
  unfoldable pub burst : (n t : ℕ) → String → RateLimitConfig f → Buckets f → List Acquired
  burst zero t id config buckets = []
  burst (suc n) t id config buckets =
      let (buckets', result) = try_acquire f t t id config buckets in
      result ∷ burst n t id config buckets'

-- What `n` calls should be answered with `tokens` left: one token less each time, then the wait.
unfoldable pub countdown : (n tokens wait : ℕ) → List Acquired
countdown zero tokens wait = []
countdown (suc n) zero wait = exceeded wait ∷ countdown n zero wait
countdown (suc n) (suc tokens) wait = allowed tokens ∷ countdown n tokens wait

module _ (f : F64) (exact : IsExact f) (config : RateLimitConfig f)
    (small : config.burst_capacity < 2 ^ 53)
    -- The rate is finite: no time refills nothing.
    (steady : (n : ℕ)
      → f.add (f.of_u64 n) (f.mul (as_secs_f64 f 0) config.refill_rate) ≡ f.of_u64 n) where
  open f use {Carrier, of_u64, to_u64, le, sub, div, ceil, fmin}

  -- The wait for a whole token.
  abbrev pub full_wait : ℕ
  full_wait = to_u64 (ceil (div (sub (one f) (of_u64 0)) config.refill_rate))

  abbrev holding : (tokens t : ℕ) → BucketState f
  holding tokens t = record { tokens = of_u64 tokens; last_refill = t }

  refill_still :
      (tokens t : ℕ)
      → tokens ≤ config.burst_capacity
      → refill f config t (holding tokens t) ≡ of_u64 tokens
  unfolding refill
  refill_still tokens t h =
      let none_passed : t - t ≡ 0 = omega arith in
      ap
        (λ d.
          fmin (of_u64 config.burst_capacity)
            (f.add (of_u64 tokens) (f.mul (as_secs_f64 f d) config.refill_rate)))
        none_passed
      ∙ (ap (fmin (of_u64 config.burst_capacity)) (steady tokens)
          ∙ exact.fmin_exact config.burst_capacity tokens small h)

  take_token_some :
      (tokens t : ℕ)
      → suc tokens ≤ config.burst_capacity
      → take_token f config t (holding (suc tokens) t) (of_u64 (suc tokens))
        ≡ (holding tokens t, allowed tokens)
  unfolding take_token
  take_token_some tokens t h =
      let enough : le (one f) (of_u64 (suc tokens)) ≡ true =
        exact.le_exact (suc tokens) (omega arith) ∙ ground arith in
      let left : to_u64 (of_u64 (suc tokens)) - 1 ≡ tokens =
        omega (arith, exact.to_exact (suc tokens) (omega arith)) in
      rw (enough, exact.sub_exact tokens (omega arith), left) refl

  take_token_none :
      (t : ℕ) → take_token f config t (holding 0 t) (of_u64 0) ≡ (holding 0 t, exceeded full_wait)
  unfolding take_token
  take_token_none t =
      let short : le (one f) (of_u64 0) ≡ false = exact.le_exact 0 (omega arith) ∙ ground arith in
      rw short refl

  -- One call for a client whose bucket holds `tokens` whole tokens since the same instant.
  abbrev Holds : (tokens t : ℕ) → String → Buckets f → Type 0
  Holds tokens t id buckets = or_full f config t (lookup id buckets) ≡ holding tokens t

  try_acquire_step :
      (tokens t : ℕ) (id : String) (buckets : Buckets f) (bucket' : BucketState f)
      (result : Acquired)
      → tokens ≤ config.burst_capacity
      → Holds tokens t id buckets
      → take_token f config t (holding tokens t) (of_u64 tokens) ≡ (bucket', result)
      → try_acquire f t t id config buckets ≡ (insert id bucket' buckets, result)
  unfolding try_acquire
  try_acquire_step tokens t id buckets bucket' result h held taken =
      let all : take_token f config t (or_full f config t (lookup id buckets))
            (refill f config t (or_full f config t (lookup id buckets)))
          ≡ (bucket', result) =
        ap (λ b. take_token f config t b (refill f config t b)) held
        ∙ (ap (take_token f config t (holding tokens t)) (refill_still tokens t h) ∙ taken) in
      ap (λ (r : BucketState f × Acquired). (insert id r.0 buckets, r.1)) all

  inserted-Holds :
      (tokens t : ℕ) (id : String) (buckets : Buckets f)
      → Holds tokens t id (insert id (holding tokens t) buckets)
  inserted-Holds tokens t id buckets =
      ap (or_full f config t) (lookup-insert_self id (holding tokens t) buckets)

  burst_from :
      (n tokens t : ℕ) (id : String) (buckets : Buckets f)
      → tokens ≤ config.burst_capacity
      → Holds tokens t id buckets
      → burst f n t id config buckets ≡ countdown n tokens full_wait
  unfolding burst countdown
  burst_from zero tokens t id buckets h held = refl
  burst_from (suc n) zero t id buckets h held =
      rw (try_acquire_step 0 t id buckets _ _ h held (take_token_none t)) (
        ap (λ rs. exceeded full_wait ∷ rs)
          (burst_from n 0 t id _ h (inserted-Holds 0 t id buckets)))
  burst_from (suc n) (suc tokens) t id buckets h held =
      rw (try_acquire_step (suc tokens) t id buckets _ _ h held (take_token_some tokens t h)) (
        ap (λ rs. allowed tokens ∷ rs)
          (burst_from n tokens t id _ (omega arith) (inserted-Holds tokens t id buckets)))

  -- With a capacity below 2 ^ 53 and a rate that refills nothing in no time: a new client's calls
  -- at one instant are let through until the capacity is used up, with one token less reported
  -- each time, and all later ones are refused with the wait for one token.
  pub burst-eq-countdown :
      (n t : ℕ) (id : String) (buckets : Buckets f)
      → lookup id buckets ≡ none
      → burst f n t id config buckets ≡ countdown n config.burst_capacity full_wait
  burst-eq-countdown n t id buckets absent =
      burst_from n config.burst_capacity t id buckets (omega arith) (ap (or_full f config t) absent)
