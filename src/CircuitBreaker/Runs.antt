-- ===== src/CircuitBreaker/Runs.antt =====
-- Runs of the breaker: what any sequence of calls, on any providers and at any instants, keeps.
use melis.Common.{
  ℕ, ◌≤◌, ◌≡◌, ◌≢◌, refl, ◌∙◌, String, List, [], ◌∷◌, length, leb, max, insert, lookup-insert,
  string_eq, string_beq_iff, ◌==◌, arith, if◌then◌else◌, if_ind, All,
}
use melis.Float.{F64}
use melis.CircuitBreaker.{
  CallResult, CircuitState, closed, opened, half_open, ProviderState, new_provider, from_secs,
  CircuitBreakerConfig, initial_ttl, next_backoff, push_result, trip, react, record_one, check,
  is_available_one, States, entry, is_rate_limited, is_success, over_threshold, is_available,
  record_result,
}
use melis.CircuitBreaker.Window.{Sublist, nil, push_result-Sublist}

-- A call of the breaker for a provider.
pub data Call : Type 0 where
  ask : String → Call
  report : String → CallResult → Call

abbrev pub about : Call → String
about (ask id) = id
about (report id result) = id

module _ (f : F64) (config : CircuitBreakerConfig f) where
  -- The table after a call at an instant, and after a sequence of calls.
  abbrev pub after : ℕ → Call → States f config → States f config
  after now (ask id) states = (is_available f config now id states).0
  after now (report id result) states = record_result f config now id result states

  unfoldable pub run : List (ℕ × Call) → States f config → States f config
  run [] states = states
  run ((now, call) ∷ calls) states = run calls (after now call states)

  -- What a call does to the entry of its own provider.
  abbrev pub after_one : ℕ → Call → ProviderState → ProviderState
  after_one now (ask id) p = (is_available_one f config now p).0
  after_one now (report id result) p = record_one f config now result p

  entry-insert :
      (id j : String) (p : ProviderState) (states : States f config)
      → entry f config j (insert id p states) ≡ (if id == j then p else entry f config j states)
  entry-insert id j p states = rw (lookup-insert id j p states) (ground arith)

  -- A call changes the entry of the provider that it names, and no other.
  pub entry-after :
      (now : ℕ) (call : Call) (states : States f config) (id : String)
      → entry f config id (after now call states) ≡ (
          if about call == id
          then after_one now call (entry f config (about call) states)
          else entry f config id states)
  unfolding is_available record_result
  entry-after now (ask j) states id = entry-insert j id _ states
  entry-after now (report j result) states id = entry-insert j id _ states

  -- The longest time-to-live that the configuration allows.
  abbrev pub ttl_cap : ℕ
  ttl_cap = from_secs (max config.open_ttl_secs config.max_ttl_secs)

  pub next_backoff-le :
      (current : ℕ) → next_backoff f config current ≤ from_secs config.max_ttl_secs
  unfolding next_backoff
  next_backoff-le current = omega arith

  abbrev pub ttl_of : CircuitState → ℕ → ℕ
  ttl_of closed d = d
  ttl_of (opened until ttl) d = ttl
  ttl_of half_open d = d

  -- The entry of a provider: the failures are among the requests, and the backoff is bounded and is
  -- that of an open circuit.
  pub record IsSound (p : ProviderState) : Type 0 where
    pub failures_within : Sublist p.failures p.total_requests
    pub backoff_bounded : p.current_backoff ≤ ttl_cap
    pub backoff_shown : ttl_of p.state p.current_backoff ≡ p.current_backoff

  new_provider-IsSound : IsSound (new_provider (initial_ttl f config))
  new_provider-IsSound = record {
    failures_within = nil;
    backoff_bounded = omega arith;
    backoff_shown = refl;
  }

  check_shown : (now : ℕ) (c : CircuitState) (d : ℕ) → ttl_of c d ≡ d → ttl_of (check now c).0 d ≡ d
  unfolding check
  check_shown now closed d h = refl
  check_shown now (opened until ttl) d h = ground arith
  check_shown now half_open d h = refl

  ask-IsSound :
      (now : ℕ) (p : ProviderState) → IsSound p → IsSound (is_available_one f config now p).0
  unfolding is_available_one
  ask-IsSound now p s = record {
    failures_within = s.failures_within;
    backoff_bounded = s.backoff_bounded;
    backoff_shown = check_shown now p.state p.current_backoff s.backoff_shown;
  }

  push_result-IsSound :
      (now : ℕ) (result : CallResult) (p : ProviderState)
      → IsSound p
      → IsSound (push_result f config now result p)
  push_result-IsSound now result p s = record {
    failures_within = push_result-Sublist f config now result p s.failures_within;
    backoff_bounded = unfold push_result in s.backoff_bounded;
    backoff_shown = unfold push_result in s.backoff_shown;
  }

  trip-IsSound :
      (now ttl : ℕ) (p : ProviderState)
      → IsSound p
      → ttl ≤ ttl_cap
      → IsSound (trip f config now ttl p)
  trip-IsSound now ttl p s h = record {
    failures_within = s.failures_within;
    backoff_bounded = h;
    backoff_shown = refl;
  }

  reset-IsSound :
      (p : ProviderState)
      → IsSound (record p {
        state = closed;
        failures = [];
        total_requests = [];
        current_backoff = initial_ttl f config;
      })
  reset-IsSound p = record {
    failures_within = nil;
    backoff_bounded = omega arith;
    backoff_shown = refl;
  }

  react-IsSound :
      (c : CircuitState) (now : ℕ) (result : CallResult) (p : ProviderState)
      → IsSound p
      → IsSound (react f config c now result p)
  unfolding react
  react-IsSound closed now result p s =
      let open_now = trip-IsSound now (initial_ttl f config) p s (omega arith) in
      let busy = leb config.min_requests_in_window (length p.total_requests) in
      let over = over_threshold f config (length p.failures) (length p.total_requests) in
      if_ind IsSound (is_rate_limited result) open_now
        (if_ind IsSound busy (if_ind IsSound over open_now s) s)
  react-IsSound half_open now result p s =
      if_ind IsSound (is_success result) (reset-IsSound p)
        (trip-IsSound now _ p s (omega (arith, next_backoff-le p.current_backoff)))
  react-IsSound (opened until ttl) now result p s = s

  after_one-IsSound :
      (now : ℕ) (call : Call) (p : ProviderState) → IsSound p → IsSound (after_one now call p)
  unfolding record_one
  after_one-IsSound now (ask id) p s = ask-IsSound now p s
  after_one-IsSound now (report id result) p s =
      react-IsSound p.state now result _ (push_result-IsSound now result p s)

  -- Every provider's entry is sound.
  abbrev pub AllSound : States f config → Type 0
  AllSound states = (id : String) → IsSound (entry f config id states)

  after-AllSound :
      (now : ℕ) (call : Call) (states : States f config)
      → AllSound states
      → AllSound (after now call states)
  after-AllSound now call states all id =
      rw (entry-after now call states id) (
        if_ind IsSound (about call == id) (after_one-IsSound now call _ (all (about call)))
          (all id))

  run_keeps :
      (calls : List (ℕ × Call)) (states : States f config)
      → AllSound states
      → AllSound (run calls states)
  unfolding run
  run_keeps [] states all = all
  run_keeps ((now, call) ∷ calls) states all =
      run_keeps calls _ (after-AllSound now call states all)

  -- After any sequence of calls from the empty table, each provider's failures in the window are
  -- among its requests in the window, its backoff is at most the larger of the initial and the
  -- maximal time-to-live, and an open circuit was opened for the current backoff.
  pub run-IsSound :
      (calls : List (ℕ × Call)) (id : String) → IsSound (entry f config id (run calls []))
  run-IsSound calls = run_keeps calls [] (λ id. new_provider-IsSound)

  -- Calls about other providers leave a provider's entry as it is.
  pub run_frame :
      (calls : List (ℕ × Call)) (states : States f config) (id : String)
      → All (λ c. about c.1 ≢ id) calls
      → entry f config id (run calls states) ≡ entry f config id states
  unfolding run
  run_frame [] states id others = refl
  run_frame ((now, call) ∷ calls) states id others =
      run_frame calls _ id others.1
      ∙ (entry-after now call states id ∙ ground (arith, others.0, string_beq_iff (about call) id))
