-- ===== src/CircuitBreaker/Recovery.antt =====
-- How an open circuit recovers, and how its backoff grows while it does not.
use melis.Common.{
  ℕ, ◌+◌, ◌*◌, ◌^◌, ◌≤◌, ◌<◌, ◌≡◌, refl, ap, ◌∙◌, String, Bool, true, false, [], ◌∷◌, min, max,
  arith, insert, lookup-insert_self, string_eq,
}
use melis.Float.{F64}
use melis.CircuitBreaker.{
  CallResult, success, opened, half_open, ProviderState, new_provider, from_secs, as_secs,
  CircuitBreakerConfig, initial_ttl, next_backoff, push_result, react, record_one, check,
  is_available_one, States, entry, is_available, record_result, is_success,
}
use melis.CircuitBreaker.Runs.{ask, report, run}

module _ (f : F64) (config : CircuitBreakerConfig f) where
  entry-insert_self :
      (id : String) (p : ProviderState) (states : States f config)
      → entry f config id (insert id p states) ≡ p
  entry-insert_self id p states = rw (lookup-insert_self id p states) refl

  probe_one :
      (now until ttl : ℕ) (p : ProviderState)
      → p.state ≡ opened until ttl
      → until ≤ now
      → is_available_one f config now p ≡ (record p { state = half_open }, true)
  unfolding is_available_one check
  probe_one now until ttl p same due = rw same (ground arith)

  success_one :
      (now : ℕ) (p : ProviderState)
      → p.state ≡ half_open
      → record_one f config now success p ≡ new_provider (initial_ttl f config)
  unfolding record_one react push_result
  success_one now p same = rw same refl

  -- Once the deadline of an open circuit has come, a query lets one request through; if that request
  -- is reported as a success the provider's entry is as if it were new: closed, with empty windows
  -- and the initial backoff.
  pub probe_recovers :
      (states : States f config) (id : String) (until ttl now later : ℕ)
      → (entry f config id states).state ≡ opened until ttl
      → until ≤ now
      → ((is_available f config now id states).1 ≡ true)
        × (entry f config id (run f config ((now, ask id) ∷ (later, report id success) ∷ []) states)
            ≡ new_provider (initial_ttl f config))
  unfolding is_available record_result run
  probe_recovers states id until ttl now later same due =
      let probed = probe_one now until ttl (entry f config id states) same due in
      (
        ap (λ r. r.1) probed,
        entry-insert_self id _ _
            ∙ success_one later _ (
                rw
                  (entry-insert_self id (is_available_one f config now (entry f config id states)).0
                    states)
                  (ap (λ (r : ProviderState × Bool). r.0.state) probed)),
      )

  fails_one :
      (now : ℕ) (result : CallResult) (p : ProviderState)
      → p.state ≡ half_open
      → is_success result ≡ false
      → (record_one f config now result p).state
        ≡ opened
            (now + next_backoff f config p.current_backoff)
            (next_backoff f config p.current_backoff)
  unfolding record_one react push_result
  fails_one now result p same bad = rw (same, bad) refl

  module _
      -- The factor is 2.0: the product is exact while the integers are.
      (doubles : (n : ℕ)
        → n < 2 ^ 52
        → f.to_u64 (f.mul (f.of_u64 n) config.backoff_factor) ≡ 2 * n) where
    next_backoff-double :
        (secs : ℕ)
        → 0 < secs
        → secs < 2 ^ 52
        → next_backoff f config (from_secs secs) ≡ from_secs (min (2 * secs) config.max_ttl_secs)
    unfolding next_backoff
    next_backoff-double secs pos small =
        let whole : max (as_secs (from_secs secs)) 1 ≡ secs = omega arith in
        rw (whole, doubles secs small) refl

    -- With a backoff factor that doubles every integer below 2 ^ 52 exactly, and a last backoff of
    -- a positive number of whole seconds below 2 ^ 52: a probe let through after the deadline of
    -- an open circuit, which does not succeed, opens the circuit again from the report on, for
    -- twice the last backoff or the maximal time-to-live, whichever is less.
    pub probe_doubles :
        (states : States f config) (id : String) (until ttl now later secs : ℕ)
        (result : CallResult)
        → (entry f config id states).state ≡ opened until ttl
        → (entry f config id states).current_backoff ≡ from_secs secs
        → 0 < secs
        → secs < 2 ^ 52
        → until ≤ now
        → is_success result ≡ false
        → (entry f config id
            (run f config ((now, ask id) ∷ (later, report id result) ∷ []) states)).state
          ≡ opened
              (later + from_secs (min (2 * secs) config.max_ttl_secs))
              (from_secs (min (2 * secs) config.max_ttl_secs))
    unfolding is_available record_result run
    probe_doubles states id until ttl now later secs result same backoff pos small due bad =
        let p = entry f config id states in
        let q : ProviderState = record p { state = half_open } in
        let probed : (is_available_one f config now p).0 ≡ q =
          ap (λ r. r.0) (probe_one now until ttl p same due) in
        let grown : next_backoff f config q.current_backoff
            ≡ from_secs (min (2 * secs) config.max_ttl_secs) =
          ap (next_backoff f config) backoff ∙ next_backoff-double secs pos small in
        rw (entry-insert_self id, entry-insert_self id, probed)
          (fails_one later result q refl bad ∙ ap (λ d. opened (later + d) d) grown)
