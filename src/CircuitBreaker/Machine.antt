-- ===== src/CircuitBreaker/Machine.antt =====
-- The states of one provider's circuit as a step relation, and how long an open circuit blocks.
use melis.Common.{
  ℕ, ◌+◌, ◌≤◌, ◌<◌, ◌≡◌, refl, sym, ap, subst, String, false, List, [], ◌∷◌, length, leb, All,
  string_eq, string_beq_iff, ◌==◌, arith, Bool-cases, if_ind, inl, inr,
}
use melis.Float.{F64}
use melis.CircuitBreaker.{
  CallResult, CircuitState, closed, opened, half_open, ProviderState, from_secs,
  CircuitBreakerConfig, initial_ttl, push_result, react, record_one, check, is_available_one,
  States, entry, is_available, is_success, is_rate_limited, over_threshold,
}
use melis.CircuitBreaker.Runs.{
  Call, ask, report, about, after, after_one, run, entry-after, next_backoff-le,
}

module _ (f : F64) (config : CircuitBreakerConfig f) where
  -- The moves that a circuit makes at the instant `now`.
  pub data Step (now : ℕ) : CircuitState → CircuitState → Type 0 where
    stay : {s : CircuitState} → Step now s s
    trips : Step now closed (opened (now + initial_ttl f config) (initial_ttl f config))
    probes : {until ttl : ℕ} → until ≤ now → Step now (opened until ttl) half_open
    recovers : Step now half_open closed
    reopens :
        (ttl : ℕ)
        → ttl ≤ from_secs config.max_ttl_secs
        → Step now half_open (opened (now + ttl) ttl)

  check-Step : (now : ℕ) (c : CircuitState) → Step now c (check now c).0
  unfolding check
  check-Step now closed = stay
  check-Step now (opened until ttl) = elim (Bool-cases (leb until now)) [
    | inl e ↦ rw e (probes (ground arith))
    | inr e ↦ rw e stay
  ]
  check-Step now half_open = stay

  react-Step :
      (c : CircuitState) (now : ℕ) (result : CallResult) (p : ProviderState)
      → p.state ≡ c
      → Step now c (react f config c now result p).state
  unfolding react
  react-Step closed now result p same =
      let P : ProviderState → Type 0 = λ q. Step now closed q.state in
      let idle = subst (Step now closed) (sym same) stay in
      let busy = leb config.min_requests_in_window (length p.total_requests) in
      let over = over_threshold f config (length p.failures) (length p.total_requests) in
      if_ind P (is_rate_limited result) trips (if_ind P busy (if_ind P over trips idle) idle)
  react-Step half_open now result p same = elim (Bool-cases (is_success result)) [
    | inl e ↦ rw e recovers
    | inr e ↦ rw e (reopens _ (next_backoff-le f config p.current_backoff))
  ]
  react-Step (opened until ttl) now result p same =
      subst (Step now (opened until ttl)) (sym same) stay

  after_one-Step :
      (now : ℕ) (call : Call) (p : ProviderState)
      → Step now p.state (after_one f config now call p).state
  unfolding is_available_one record_one push_result
  after_one-Step now (ask id) p = check-Step now p.state
  after_one-Step now (report id result) p = react-Step p.state now result _ refl

  -- A call at `now` moves the circuit of every provider by one step of the machine at most: closed
  -- opens for the initial time-to-live, open becomes half-open once its time is over, half-open
  -- closes or opens again for at most the maximal time-to-live; nothing else happens.
  pub after-Step :
      (now : ℕ) (call : Call) (states : States f config) (id : String)
      → Step now
          (entry f config id states).state
          (entry f config id (after f config now call states)).state
  after-Step now call states id = elim (Bool-cases (about call == id)) [
    | inl e ↦
        let same : about call ≡ id = (string_beq_iff (about call) id).0 e in
        rw (entry-after f config now call states id, e)
          (subst
            (λ j.
              Step now (entry f config j states).state
                (after_one f config now call (entry f config (about call) states)).state)
            same (after_one-Step now call (entry f config (about call) states)))
    | inr e ↦ rw (entry-after f config now call states id, e) stay
  ]

  check_blocked :
      (now until ttl : ℕ) → now < until → check now (opened until ttl) ≡ (opened until ttl, false)
  unfolding check
  check_blocked now until ttl early = ground arith

  after_one_blocked :
      (now until ttl : ℕ) (call : Call) (p : ProviderState)
      → p.state ≡ opened until ttl
      → now < until
      → (after_one f config now call p).state ≡ opened until ttl
  unfolding is_available_one record_one push_result react
  after_one_blocked now until ttl (ask id) p same early =
      rw same (ap (λ r. r.0) (check_blocked now until ttl early))
  after_one_blocked now until ttl (report id result) p same early = rw same refl

  after_blocked :
      (at until ttl : ℕ) (call : Call) (states : States f config) (id : String)
      → (entry f config id states).state ≡ opened until ttl
      → at < until
      → (entry f config id (after f config at call states)).state ≡ opened until ttl
  after_blocked at until ttl call states id same early = elim (Bool-cases (about call == id)) [
    | inl e ↦
        let found : about call ≡ id = (string_beq_iff (about call) id).0 e in
        rw (entry-after f config at call states id, e)
          (after_one_blocked at until ttl call _
            (subst (λ j. (entry f config j states).state ≡ opened until ttl) (sym found) same)
            early)
    | inr e ↦ rw (entry-after f config at call states id, e) same
  ]

  -- While a provider's circuit is open, no sequence of calls before its deadline, about that
  -- provider or any other, changes its state, and every query before the deadline is refused.
  pub run_blocked :
      (calls : List (ℕ × Call)) (states : States f config) (id : String) (until ttl now : ℕ)
      → (entry f config id states).state ≡ opened until ttl
      → All (λ c. c.0 < until) calls
      → now < until
      → ((entry f config id (run f config calls states)).state ≡ opened until ttl)
        × ((is_available f config now id (run f config calls states)).1 ≡ false)
  unfolding run is_available is_available_one
  run_blocked [] states id until ttl now same early before =
      (same, rw same (ap (λ r. r.1) (check_blocked now until ttl before)))
  run_blocked ((at, call) ∷ calls) states id until ttl now same early before =
      run_blocked calls (after f config at call states) id until ttl now
        (after_blocked at until ttl call states id same early.0) early.1 before
