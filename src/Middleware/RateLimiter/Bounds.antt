-- ===== src/Middleware/RateLimiter/Bounds.antt =====
-- The tokens of every bucket stay between zero and the capacity.
use melis.Common.{
  ℕ, ◌+◌, ◌≤◌, ◌<◌, ◌^◌, ◌≡◌, refl, subst, String, true, Option, none, some, List, [], ◌∷◌, lookup,
  lookup-insert, string_eq, string_beq_iff, ◌==◌, arith, if◌then◌else◌, Bool-cases, inl, inr,
}
use melis.Float.{F64, IsOrdered}
use melis.Middleware.RateLimiter.{
  Acquired, allowed, RateLimitConfig, BucketState, Buckets, one, or_full, refill, take_token,
  try_acquire,
}

module _ (f : F64) where
  open f use {Carrier, of_u64, le}

  pub record IsWithin (config : RateLimitConfig f) (bucket : BucketState f) : Type 0 where
    pub nonnegative : le (of_u64 0) bucket.tokens ≡ true
    pub below : le bucket.tokens (of_u64 config.burst_capacity) ≡ true

module _ (f : F64) (laws : IsOrdered f) (config_of : String → RateLimitConfig f) where
  open f use {Carrier, of_u64, le, to_u64}

  -- Each client's bucket is within its own limit.
  abbrev AllWithin : Buckets f → Type 0
  AllWithin buckets =
      (id : String) (bucket : BucketState f)
      → lookup id buckets ≡ some bucket
      → IsWithin f (config_of id) bucket

  refill-le :
      (config : RateLimitConfig f) (later : ℕ) (bucket : BucketState f)
      → le (refill f config later bucket) (of_u64 config.burst_capacity) ≡ true
  unfolding refill
  refill-le config later bucket = laws.fmin-le config.burst_capacity _

  take_token-IsWithin :
      (config : RateLimitConfig f) (now : ℕ) (bucket : BucketState f) (refilled : Carrier)
      → le refilled (of_u64 config.burst_capacity) ≡ true
      → IsWithin f config bucket
      → IsWithin f config (take_token f config now bucket refilled).0
  unfolding take_token
  take_token-IsWithin config now bucket refilled top w = elim (Bool-cases (le (one f) refilled)) [
    | inl e ↦ rw e (record {
      nonnegative = laws.zero-le-sub_one refilled e;
      below = laws.sub_one_le refilled _ e top;
    })
    | inr e ↦ rw e w
  ]

  or_full-IsWithin :
      (config : RateLimitConfig f) (now : ℕ) (found : Option (BucketState f))
      → ((bucket : BucketState f) → found ≡ some bucket → IsWithin f config bucket)
      → IsWithin f config (or_full f config now found)
  or_full-IsWithin config now none h = record {
    nonnegative = laws.zero-le-u64 _;
    below = laws.u64_le_refl _;
  }
  or_full-IsWithin config now (some bucket) h = h bucket refl

  -- The client's bucket before a call, and after it.
  abbrev before : (now : ℕ) → String → Buckets f → BucketState f
  before now id buckets = or_full f (config_of id) now (lookup id buckets)

  abbrev acquired : (now later : ℕ) → String → Buckets f → BucketState f × Acquired
  acquired now later id buckets =
      take_token f (config_of id) now (before now id buckets)
        (refill f (config_of id) later (before now id buckets))

  lookup-try_acquire :
      (now later : ℕ) (id j : String) (buckets : Buckets f)
      → lookup j (try_acquire f now later id (config_of id) buckets).0
        ≡ (if id == j then some (acquired now later id buckets).0 else lookup j buckets)
  unfolding try_acquire
  lookup-try_acquire now later id j buckets = lookup-insert id j _ buckets

  acquired-IsWithin :
      (now later : ℕ) (id : String) (buckets : Buckets f)
      → AllWithin buckets
      → IsWithin f (config_of id) (acquired now later id buckets).0
  acquired-IsWithin now later id buckets all =
      take_token-IsWithin (config_of id) now _ _ (refill-le (config_of id) later _)
        (or_full-IsWithin (config_of id) now (lookup id buckets) (all id))

  try_acquire-AllWithin :
      (now later : ℕ) (id : String) (buckets : Buckets f)
      → AllWithin buckets
      → AllWithin (try_acquire f now later id (config_of id) buckets).0
  try_acquire-AllWithin now later id buckets all j bucket found = elim (Bool-cases (id == j)) [
    | inl same ↦
        let e : id ≡ j = (string_beq_iff id j).0 same in
        let b : (acquired now later id buckets).0 ≡ bucket =
          ground (arith, lookup-try_acquire now later id j buckets) in
        subst (λ k. IsWithin f (config_of k) bucket) e
          (subst (IsWithin f (config_of id)) b (acquired-IsWithin now later id buckets all))
    | inr other ↦ all j bucket (ground (arith, lookup-try_acquire now later id j buckets))
  ]

  -- The buckets after a sequence of calls: each at its two instants, for a client.
  unfoldable pub run : List (ℕ × (ℕ × String)) → Buckets f → Buckets f
  run [] buckets = buckets
  run ((now, (later, id)) ∷ calls) buckets =
      run calls (try_acquire f now later id (config_of id) buckets).0

  run_keeps :
      (calls : List (ℕ × (ℕ × String))) (buckets : Buckets f)
      → AllWithin buckets
      → AllWithin (run calls buckets)
  unfolding run
  run_keeps [] buckets all = all
  run_keeps ((now, (later, id)) ∷ calls) buckets all =
      run_keeps calls _ (try_acquire-AllWithin now later id buckets all)

  -- After any calls for any clients, each client with a fixed limit of its own, every bucket holds
  -- between zero tokens and its capacity.
  pub run-IsWithin :
      (calls : List (ℕ × (ℕ × String))) (id : String) (bucket : BucketState f)
      → lookup id (run calls []) ≡ some bucket
      → IsWithin f (config_of id) bucket
  run-IsWithin calls = run_keeps calls [] (λ id bucket found. absurd (ground arith))

  take_token_remaining :
      (config : RateLimitConfig f) (now remaining : ℕ) (bucket : BucketState f) (refilled : Carrier)
      → config.burst_capacity < 2 ^ 53
      → le refilled (of_u64 config.burst_capacity) ≡ true
      → (take_token f config now bucket refilled).1 ≡ allowed remaining
      → remaining + 1 ≤ config.burst_capacity
  unfolding take_token
  take_token_remaining config now remaining bucket refilled small top e =
      elim (Bool-cases (le (one f) refilled)) [
        | inl full ↦
            let most = laws.to_u64-le refilled config.burst_capacity small top in
            let least = laws.to_u64_pos refilled full in ground (arith, most, least, full)
        | inr empty ↦ absurd (ground (arith, empty))
      ]

  -- If the capacity is below 2 ^ 53, a call that is let through reports fewer tokens left than the
  -- capacity, whatever the buckets hold; so none can be let through with capacity zero.
  pub try_acquire_remaining :
      (now later remaining : ℕ) (id : String) (buckets : Buckets f)
      → (config_of id).burst_capacity < 2 ^ 53
      → (try_acquire f now later id (config_of id) buckets).1 ≡ allowed remaining
      → remaining + 1 ≤ (config_of id).burst_capacity
  unfolding try_acquire
  try_acquire_remaining now later remaining id buckets small e =
      take_token_remaining (config_of id) now remaining _ _ small (refill-le (config_of id) later _)
        e
