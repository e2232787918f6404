-- ===== src/Middleware/RateLimiter/Refusals.antt =====
-- When the middleware refuses a request.
use melis.Common.{
  ℕ, ◌≡◌, ◌≢◌, refl, sym, subst, ◌∙◌, ◌↔◌, ◌⊎◌, inl, inr, ◌-◌, lookup, String, false, Option, none,
  some, nat_eq, string_eq, arith,
}
use melis.Float.{F64}
use melis.Error.{GatewayError, rate_limited, err}
use melis.Middleware.{Response}
use melis.Middleware.Auth.{ClientIdentity}
use melis.Middleware.RateLimiter.{
  Acquired, allowed, exceeded, as_secs_f64, refill, or_full, RateLimitConfig, BucketState, Buckets,
  take_token, try_acquire, effective_config, answer, rate_limit_middleware,
}

module _ (f : F64) where
  open f use {Carrier, of_u64, to_u64, lit, add, sub, mul, div, fmin, ceil, le}

  some_eq : (a b : ClientIdentity f) → some a ≡ some b → a ≡ b
  some_eq a b h = cc

  bucket_eq : (a b : BucketState f) → ◌≡◌ {A = Option (BucketState f)} (some a) (some b) → a ≡ b
  bucket_eq a b h = cc

  answer-err_iff :
      (result : Acquired) (next : Response) (e : GatewayError)
      → (answer f result next ≡ err e)
        ↔ ((secs : ℕ) × (result ≡ exceeded secs) × (secs ≢ 0) × (e ≡ rate_limited secs))
  unfolding answer
  answer-err_iff (allowed remaining) next e = (λ h. cc, λ (secs, r, nonzero, s). cc)
  answer-err_iff (exceeded secs) next e =
      (λ h. (secs, refl, ground arith, ground arith), λ (secs', r, nonzero, s). ground arith)

  -- The tokens that the client's bucket holds for a request: those of its last state, or all of its
  -- capacity for a new client, with what the rate has added since, and at most the capacity.
  abbrev pub IsLevel : RateLimitConfig f → (now later : ℕ) → String → Buckets f → Carrier → Type 0
  IsLevel config now later id buckets x =
      let level = λ (tokens : Carrier) (since : ℕ).
        fmin (of_u64 config.burst_capacity)
          (add tokens (mul (as_secs_f64 f (later - since)) config.refill_rate)) in
      ((lookup id buckets ≡ none) × (x ≡ level (of_u64 config.burst_capacity) now))
      ⊎ ((bucket : BucketState f) × (lookup id buckets ≡ some bucket)
          × (x ≡ level bucket.tokens bucket.last_refill))

  -- There is less than one token, and so many seconds pass until there is one.
  abbrev pub IsWait : RateLimitConfig f → Carrier → ℕ → Type 0
  IsWait config x secs =
      (le (lit 10 1) x ≡ false) × (secs ≡ to_u64 (ceil (div (sub (lit 10 1) x) config.refill_rate)))

  take_token_iff :
      (config : RateLimitConfig f) (now secs : ℕ) (bucket : BucketState f) (x : Carrier)
      → ((take_token f config now bucket x).1 ≡ exceeded secs) ↔ IsWait config x secs
  unfolding take_token
  take_token_iff config now secs bucket x = (λ h. ground arith, λ (lacking, wait). ground arith)

  IsLevel-iff :
      (config : RateLimitConfig f) (now later : ℕ) (id : String) (buckets : Buckets f) (x : Carrier)
      (found : Option (BucketState f))
      → lookup id buckets ≡ found
      → IsLevel config now later id buckets x
        ↔ (x ≡ refill f config later (or_full f config now found))
  unfolding refill
  IsLevel-iff config now later id buckets x none found = (
    λ level. elim level [
      | inl (absent, same) ↦ same
      | inr (bucket, there, same) ↦ absurd (cc (found, there))
    ],
    λ same. inl (found, same),
  )
  IsLevel-iff config now later id buckets x (some b) found = (
    λ level. elim level [
      | inl (absent, same) ↦ absurd (cc (found, absent))
      | inr (bucket, there, same) ↦
          subst (λ (o : BucketState f). x ≡ refill f config later o)
            (bucket_eq bucket b (sym there ∙ found)) same
    ],
    λ same. inr (b, found, same),
  )

  try_acquire_iff :
      (now later secs : ℕ) (id : String) (config : RateLimitConfig f) (buckets : Buckets f)
      → ((try_acquire f now later id config buckets).1 ≡ exceeded secs)
        ↔ ((x : Carrier) × IsLevel config now later id buckets x × IsWait config x secs)
  unfolding try_acquire
  try_acquire_iff now later secs id config buckets =
      let bucket = or_full f config now (lookup id buckets) in
      let held = refill f config later bucket in
      let level =
        λ (x : Carrier). IsLevel-iff config now later id buckets x (lookup id buckets) refl in
      let wait = take_token_iff config now secs bucket in
      (
        λ h. (held, (level held).1 refl, (wait held).0 h),
        λ (x, is_level, is_wait).
            (wait held).1 (subst (λ y. IsWait config y secs) ((level x).0 is_level) is_wait),
      )

  -- A request is refused exactly when it carries an identity, the client's bucket holds less than one
  -- token under its effective limit, refilled by the time since its last success and up to the
  -- capacity, and the wait for one is not zero seconds; the error is then the wait.
  pub rate_limit_middleware_refuses_iff :
      (now later : ℕ) (default : RateLimitConfig f) (identity : Option (ClientIdentity f))
      (next : Response) (buckets : Buckets f) (e : GatewayError)
      → ((rate_limit_middleware f now later default identity next buckets).1 ≡ err e) ↔ (
          (who : ClientIdentity f) × (secs : ℕ) × (x : Carrier) × (identity ≡ some who)
          × IsLevel
              (effective_config f default who.rate_limit_config)
              now
              later
              who.client_id
              buckets
              x
          × IsWait (effective_config f default who.rate_limit_config) x secs
          × (secs ≢ 0)
          × (e ≡ rate_limited secs))
  unfolding rate_limit_middleware
  rate_limit_middleware_refuses_iff now later default none next buckets e =
      (λ h. cc, λ (who, secs, x, is_some, level, wait, nonzero, s). cc)
  rate_limit_middleware_refuses_iff now later default (some id) next buckets e =
      let config = effective_config f default id.rate_limit_config in
      let (to, from) =
        answer-err_iff (try_acquire f now later id.client_id config buckets).1 next e in
      (
        λ h.
            let (secs, r, nonzero, s) = to h in
            let (x, level, wait) =
              (try_acquire_iff now later secs id.client_id config buckets).0 r in
            (id, secs, x, refl, level, wait, nonzero, s),
        λ (who, secs, x, is_some, level, wait, nonzero, s).
            let (level', wait') =
              subst
                (λ w.
                  IsLevel (effective_config f default w.rate_limit_config) now later w.client_id
                    buckets x
                  × IsWait (effective_config f default w.rate_limit_config) x secs)
                (some_eq who id (sym is_some)) (level, wait) in
            from (
              secs,
              (try_acquire_iff now later secs id.client_id config buckets).1 (x, level', wait'),
              nonzero,
              s,
            ),
      )
