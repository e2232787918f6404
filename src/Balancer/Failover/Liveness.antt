-- ===== src/Balancer/Failover/Liveness.antt =====
-- A healthy provider is reached: with no more providers than attempts, and failures that may all be
-- retried, the request is answered.
use melis.Common.{
  ℕ, zero, suc, ◌+◌, ◌≤◌, ◌<◌, ◌≡◌, refl, ◌≢◌, sym, ap, subst, String, Option, none, some, List, [],
  ◌∷◌, ◌++◌, false, not, In, In-keep, In-keep_of, length-keep-lt, length-keep-le, contains, length,
  is_empty, All, string_eq, string_beq_iff, arith, ◌==◌, inl, inr, is_same_refl, Bool-cases,
  All-keep, sum_of-keep-le,
}
use melis.Error.{GatewayError, Result, ok, err}
use melis.RouteConfig.{WeightedProvider}
use melis.Balancer.{
  RequestOutcome, success, retryable, non_retryable, LoadBalancer, available, max_retries,
  select_with_failover, failover_loop, execute_with_failover, weighted_round_robin, u64_mod,
  select_provider,
}
use melis.Balancer.Select.{IsLoadBalancer, total, select_provider_turn}
use melis.Balancer.Failover.{
  contains-concat, Round, refused, answered, retried, failed, round, selected-In,
}

-- Excluding one more name leaves strictly fewer providers, if one that was left bears it.
pub available-concat :
    (excluded : List String) (p : WeightedProvider) (ps : List WeightedProvider)
    → In p (available excluded ps)
    → length (available (excluded ++ p.name ∷ []) ps) < length (available excluded ps)
available-concat excluded p ps m =
    let (listed, fresh) = In-keep (λ q. not (contains excluded q.name)) p ps m in
    length-keep-lt (λ q. not (contains (excluded ++ p.name ∷ []) q.name))
      (λ q. not (contains excluded q.name)) p ps
      (λ q h. ground (arith, contains-concat excluded p.name q.name)) listed fresh
      (ground (arith, contains-concat excluded p.name p.name, is_same_refl p.name))

-- The balancer always finds one of the providers that are left.
abbrev pub Accepts : {W : Type 0} → LoadBalancer W → List WeightedProvider → Type 0
Accepts {W} balancer providers =
    (w : W) (excluded : List String)
    → is_empty (available excluded providers) ≡ false
    → (p : WeightedProvider) × ((balancer.select w (available excluded providers)).1 ≡ ok p)

total-pos :
    (ps : List WeightedProvider) → is_empty ps ≡ false → All (λ p. 0 < p.weight) ps → 0 < total ps
total-pos [] h a = cc
total-pos (p ∷ ps) h a = omega arith

round_robin_serves :
    (counter : ℕ) (ps : List WeightedProvider)
    → is_empty ps ≡ false
    → All (λ p. 0 < p.weight) ps
    → total ps < u64_mod
    → (p : WeightedProvider) × ((select_provider counter ps).1 ≡ ok p)
unfolding select_provider
round_robin_serves counter [] h a fits = cc
round_robin_serves counter (p ∷ []) h a fits = (p, refl)
round_robin_serves counter (p ∷ q ∷ ps) h a fits =
    let (chosen, found, step, member, heavy) =
      select_provider_turn counter p q ps (total-pos (p ∷ q ∷ ps) h a) fits in
    (chosen, ap (λ r. r.1) step)

-- The round robin does, if every weight is positive and their sum is a `u64`.
pub weighted_round_robin-Accepts :
    (ps : List WeightedProvider)
    → All (λ p. 0 < p.weight) ps
    → total ps < u64_mod
    → Accepts weighted_round_robin ps
weighted_round_robin-Accepts ps positive fits counter excluded left =
    let kept = λ (p : WeightedProvider). not (contains excluded p.name) in
    round_robin_serves counter (available excluded ps) left
      (All-keep (λ p. 0 < p.weight) kept ps positive)
      (omega (arith, sum_of-keep-le (λ p. p.weight) kept ps))

pub In-is_empty :
    (p : WeightedProvider) (ps : List WeightedProvider) → In p ps → is_empty ps ≡ false
In-is_empty p [] m = absurd m
In-is_empty p (q ∷ ps) m = refl

pub In-length : (p : WeightedProvider) (ps : List WeightedProvider) → In p ps → 0 < length ps
In-length p [] m = absurd m
In-length p (q ∷ ps) m = omega arith

module _ {W T : Type 0} {balancer : LoadBalancer W} (contract : IsLoadBalancer balancer)
    (providers : List WeightedProvider) (request : W → WeightedProvider → W × RequestOutcome T)
    (accepts : Accepts balancer providers)
    (soft : (w : W) (p : WeightedProvider) (e : GatewayError) → (request w p).1 ≢ non_retryable e)
    (healthy : WeightedProvider)
    (answers : (w : W) (p : WeightedProvider)
      → p.name ≡ healthy.name
      → (t : T) × ((request w p).1 ≡ success t))
    (listed : In healthy providers) where
  abbrev IsAnswered : Result T → Type 0
  IsAnswered r = (t : T) × (r ≡ ok t)

  healthy_left :
      (excluded : List String)
      → contains excluded healthy.name ≡ false
      → In healthy (available excluded providers)
  healthy_left excluded out =
      In-keep_of (λ q. not (contains excluded q.name)) healthy providers listed (ground arith)

  never_refused :
      (w w' : W) (excluded : List String) (e : GatewayError)
      → contains excluded healthy.name ≡ false
      → select_with_failover balancer providers w excluded ≡ (w', err e)
      → ⊥
  unfolding select_with_failover
  never_refused w w' excluded e out chosen =
      let left = In-is_empty healthy _ (healthy_left excluded out) in
      let (p, found) = accepts w excluded left in ground (arith, left, found)

  -- A provider whose failure may be retried is not the healthy one.
  still_out :
      (w w' : W) (excluded : List String) (p : WeightedProvider) (reason : String)
      → contains excluded healthy.name ≡ false
      → request w p ≡ (w', retryable reason)
      → contains (excluded ++ p.name ∷ []) healthy.name ≡ false
  still_out w w' excluded p reason out asked = elim (Bool-cases (p.name == healthy.name)) [
    | inl same ↦
        let (t, success_here) = answers w p ((string_beq_iff p.name healthy.name).0 same) in
        absurd (cc (success_here, ap (λ a. a.1) asked))
    | inr other ↦ ground (arith, contains-concat excluded p.name healthy.name)
  ]

  Round-IsAnswered :
      (n : ℕ) (excluded : List String) (w : W) (r : W × Result T)
      → Round balancer providers request n excluded w r
      → contains excluded healthy.name ≡ false
      → length (available excluded providers) ≤ suc n
      → ((excluded' : List String) (last_error : Option String) (w' : W)
          → contains excluded' healthy.name ≡ false
          → length (available excluded' providers) ≤ n
          → IsAnswered (failover_loop balancer providers request n excluded' last_error w').1)
      → IsAnswered r.1
  Round-IsAnswered n excluded w r (refused w' e chosen same) out few later =
      absurd (never_refused w w' excluded e out chosen)
  Round-IsAnswered n excluded w r (answered w' w'' p t chosen asked same) out few later =
      (t, ap (λ a. a.1) same)
  Round-IsAnswered n excluded w r (retried w' w'' p reason chosen asked same) out few later =
      let member = selected-In contract providers w excluded p (ap (λ a. a.1) chosen) in
      subst IsAnswered (sym (ap (λ a. a.1) same)) (
        later _ (some reason) w'' (still_out w' w'' excluded p reason out asked)
          (omega (arith, available-concat excluded p providers member)))
  Round-IsAnswered n excluded w r (failed w' w'' p e chosen asked same) out few later =
      absurd (soft w' p e (ap (λ a. a.1) asked))

  loop-IsAnswered :
      (n : ℕ) (excluded : List String) (last_error : Option String) (w : W)
      → contains excluded healthy.name ≡ false
      → length (available excluded providers) ≤ n
      → IsAnswered (failover_loop balancer providers request n excluded last_error w).1
  loop-IsAnswered zero excluded last_error w out few =
      absurd (omega (arith, In-length healthy _ (healthy_left excluded out)))
  loop-IsAnswered (suc n) excluded last_error w out few =
      Round-IsAnswered n excluded w _ (round balancer providers request n excluded last_error w) out
        few (loop-IsAnswered n)

  -- If the balancer keeps the trait's contract and accepts whatever is left of the list, no
  -- failure is final, the healthy provider is listed, every provider that bears its name answers,
  -- and there are at most `max_retries + 1` providers, then the request is answered.
  pub execute_with_failover-answered :
      length providers ≤ max_retries + 1
      → (w : W) → (t : T) × ((execute_with_failover balancer providers request w).1 ≡ ok t)
  unfolding execute_with_failover
  execute_with_failover-answered few w =
      loop-IsAnswered (suc max_retries) [] none w refl
        (omega (arith, length-keep-le (λ q. not (contains [] q.name)) providers))
