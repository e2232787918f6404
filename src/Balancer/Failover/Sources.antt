-- ===== src/Balancer/Failover/Sources.antt =====
-- Where the result of `execute_with_failover` comes from.
use melis.Common.{
  ℕ, zero, suc, ◌≡◌, refl, ◌⊎◌, inl, inr, sym, ap, subst, String, Option, none, List, In, In-keep,
  not, contains, string_eq, [],
}
use melis.Error.{service_unavailable, Result, ok, err}
use melis.RouteConfig.{WeightedProvider}
use melis.Balancer.{
  RequestOutcome, success, non_retryable, LoadBalancer, max_retries, select_with_failover,
  failover_loop, execute_with_failover,
}
use melis.Balancer.Select.{IsLoadBalancer}
use melis.Balancer.Failover.{
  Round, refused, answered, retried, failed, round, selected-In, refused_unavailable,
}

module _ {W T : Type 0} {balancer : LoadBalancer W} (contract : IsLoadBalancer balancer)
    (providers : List WeightedProvider)
    (request : W → WeightedProvider → W × RequestOutcome T) where
  -- An answer of a listed provider, which succeeded or failed for good, or the gateway's refusal.
  abbrev pub IsExplained : Result T → Type 0
  IsExplained (ok t) =
      (w : W) × (p : WeightedProvider) × In p providers × ((request w p).1 ≡ success t)
  IsExplained (err e) =
      ((msg : String) × (e ≡ service_unavailable msg))
      ⊎ ((w : W) × (p : WeightedProvider) × In p providers × ((request w p).1 ≡ non_retryable e))

  listed :
      (w w' : W) (excluded : List String) (p : WeightedProvider)
      → select_with_failover balancer providers w excluded ≡ (w', ok p)
      → In p providers
  listed w w' excluded p chosen =
      (In-keep (λ q. not (contains excluded q.name)) p providers
        (selected-In contract providers w excluded p (ap (λ a. a.1) chosen))).0

  Round-IsExplained :
      (n : ℕ) (excluded : List String) (w : W) (r : W × Result T)
      → Round balancer providers request n excluded w r
      → ((excluded' : List String) (last_error : Option String) (w' : W)
          → IsExplained (failover_loop balancer providers request n excluded' last_error w').1)
      → IsExplained r.1
  Round-IsExplained n excluded w r (refused w' e chosen same) later =
      subst IsExplained (sym (ap (λ a. a.1) same))
        (inl (refused_unavailable contract providers w excluded e (ap (λ a. a.1) chosen)))
  Round-IsExplained n excluded w r (answered w' w'' p t chosen asked same) later =
      subst IsExplained (sym (ap (λ a. a.1) same))
        (w', p, listed w w' excluded p chosen, ap (λ a. a.1) asked)
  Round-IsExplained n excluded w r (retried w' w'' p reason chosen asked same) later =
      subst IsExplained (sym (ap (λ a. a.1) same)) (later _ _ w'')
  Round-IsExplained n excluded w r (failed w' w'' p e chosen asked same) later =
      subst IsExplained (sym (ap (λ a. a.1) same))
        (inr (w', p, listed w w' excluded p chosen, ap (λ a. a.1) asked))

  failover_loop-IsExplained :
      (n : ℕ) (excluded : List String) (last_error : Option String) (w : W)
      → IsExplained (failover_loop balancer providers request n excluded last_error w).1
  unfolding failover_loop
  failover_loop-IsExplained zero excluded last_error w = inl (_, refl)
  failover_loop-IsExplained (suc n) excluded last_error w =
      Round-IsExplained n excluded w _ (round balancer providers request n excluded last_error w)
        (failover_loop-IsExplained n)

  -- With a balancer that keeps the trait's contract: a response is the successful answer of a
  -- listed provider, and an error is a refusal as unavailable or the final error of a listed
  -- provider.
  pub execute_with_failover-IsExplained :
      (w : W) → IsExplained (execute_with_failover balancer providers request w).1
  unfolding execute_with_failover
  execute_with_failover-IsExplained w = failover_loop-IsExplained (suc max_retries) [] none w
