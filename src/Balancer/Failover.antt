-- ===== src/Balancer/Failover.antt =====
-- The failover loop by rounds, over any balancer that keeps the trait's contract and any request.
pub mod Sources
pub mod Attempts
pub mod Liveness
use melis.Common.{
  ℕ, zero, suc, ◌+◌, ◌≤◌, ◌<◌, ◌≡◌, refl, ◌∙◌, sym, ap, subst, ◌⊎◌, inl, inr, ◌≢◌, String, Bool,
  true, false, not, ◌||◌, Option, none, some, List, [], ◌∷◌, ◌++◌, In, In-keep, contains, keep,
  length, is_empty, ◌==◌, string_eq, string_beq_iff, arith, Bool-cases, if◌then◌else◌,
  length-append,
}
use melis.Error.{GatewayError, service_unavailable, Result, ok, err, Result-cases}
use melis.RouteConfig.{WeightedProvider}
use melis.Balancer.{
  RequestOutcome, success, retryable, non_retryable, LoadBalancer, available, all_exhausted,
  attempts_failed, max_retries, select_with_failover, failover_loop, execute_with_failover,
}
use melis.Balancer.Select.{IsLoadBalancer}

-- No name twice.
abbrev pub Distinct : List String → Type 0
Distinct [] = Unit
Distinct (x ∷ xs) = (contains xs x ≡ false) × Distinct xs

pub contains-concat :
    (xs : List String) (x y : String) → contains (xs ++ x ∷ []) y ≡ (contains xs y || x == y)
contains-concat [] x y = ground arith
contains-concat (z ∷ xs) x y = ground (arith, contains-concat xs x y)

pub Distinct-concat :
    (xs : List String) (x : String) → Distinct xs → contains xs x ≡ false → Distinct (xs ++ x ∷ [])
Distinct-concat [] x d new = (refl, tt)
Distinct-concat (z ∷ xs) x d new = (
  ground (arith, contains-concat xs x z, string_beq_iff z x, string_beq_iff x z),
  Distinct-concat xs x d.1 (ground arith),
)

module _ {W : Type 0} {balancer : LoadBalancer W} (contract : IsLoadBalancer balancer)
    (providers : List WeightedProvider) where
  -- A selection is listed, and its name is not excluded.
  pub selected-In :
      (w : W) (excluded : List String) (p : WeightedProvider)
      → (select_with_failover balancer providers w excluded).1 ≡ ok p
      → In p (available excluded providers)
  unfolding select_with_failover
  selected-In w excluded p e = contract.selects w (available excluded providers) p (ground arith)

  pub refused_unavailable :
      (w : W) (excluded : List String) (e : GatewayError)
      → (select_with_failover balancer providers w excluded).1 ≡ err e
      → (msg : String) × (e ≡ service_unavailable msg)
  unfolding select_with_failover
  refused_unavailable w excluded e h = elim (Bool-cases (is_empty (available excluded providers))) [
    | inl none_left ↦ ("All providers exhausted after failover attempts", ground arith)
    | inr some_left ↦ contract.refuses w (available excluded providers) e (ground arith)
  ]

module _ {W T : Type 0} (balancer : LoadBalancer W) (providers : List WeightedProvider)
    (request : W → WeightedProvider → W × RequestOutcome T) where
  -- One round of the loop, with the result `r` of the whole loop from there.
  pub data Round (n : ℕ) (excluded : List String) (w : W) (r : W × Result T) : Type 0 where
    refused :
        (w' : W) (e : GatewayError)
        → select_with_failover balancer providers w excluded ≡ (w', err e)
        → r ≡ (w', err e)
        → Round n excluded w r
    answered :
        (w' w'' : W) (p : WeightedProvider) (t : T)
        → select_with_failover balancer providers w excluded ≡ (w', ok p)
        → request w' p ≡ (w'', success t)
        → r ≡ (w'', ok t)
        → Round n excluded w r
    retried :
        (w' w'' : W) (p : WeightedProvider) (reason : String)
        → select_with_failover balancer providers w excluded ≡ (w', ok p)
        → request w' p ≡ (w'', retryable reason)
        → r ≡ failover_loop balancer providers request n (excluded ++ p.name ∷ []) (some reason) w''
        → Round n excluded w r
    failed :
        (w' w'' : W) (p : WeightedProvider) (e : GatewayError)
        → select_with_failover balancer providers w excluded ≡ (w', ok p)
        → request w' p ≡ (w'', non_retryable e)
        → r ≡ (w'', err e)
        → Round n excluded w r

  selection-Round :
      (n : ℕ) (excluded : List String) (last_error : Option String) (w w' : W)
      (selected : Result WeightedProvider)
      → select_with_failover balancer providers w excluded ≡ (w', selected)
      → (r : W × Result T)
      → r ≡ failover_loop balancer providers request (suc n) excluded last_error w
      → Round n excluded w r
  unfolding failover_loop
  selection-Round n excluded last_error w w' (err e) chosen r same =
      refused w' e chosen (same ∙ ground arith)
  selection-Round n excluded last_error w w' (ok p) chosen r same = by_outcome (request w' p) refl
    where
      by_outcome : (a : W × RequestOutcome T) → request w' p ≡ a → Round n excluded w r
      by_outcome (w'', success t) asked = answered w' w'' p t chosen asked (same ∙ ground arith)
      by_outcome (w'', retryable reason) asked =
          retried w' w'' p reason chosen asked (same ∙ ground arith)
      by_outcome (w'', non_retryable e) asked = failed w' w'' p e chosen asked (same ∙ ground arith)

  pub round :
      (n : ℕ) (excluded : List String) (last_error : Option String) (w : W)
      → Round n excluded w (failover_loop balancer providers request (suc n) excluded last_error w)
  round n excluded last_error w = selection-Round n excluded last_error w _ _ refl _ refl
