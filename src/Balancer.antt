-- ===== src/Balancer.antt =====
-- src/balancer.rs: weighted round robin and the failover loop.
pub mod Select
pub mod Fairness
pub mod Failover
mod Tests
use Prim.Native.String.{◌++◌ as ◌⧺◌}
use melis.Common.{
  ℕ, zero, suc, ◌+◌, ◌%◌, ◌^◌, String, to_string, Bool, not, Option, none, some, List, [], ◌∷◌,
  ◌++◌, keep, contains, is_empty, ltb, ◌==◌, nat_eq, string_eq, if◌then◌else◌,
}
use melis.Error.{GatewayError, service_unavailable, Result, ok, err}
use melis.RouteConfig.{WeightedProvider}

abbrev pub max_retries : ℕ
max_retries = 2

abbrev pub u64_mod : ℕ
u64_mod = 2 ^ 64

-- The sum of the weights as `u64`, from an accumulator as `Iterator::sum` does.
unfoldable pub total_from : ℕ → List WeightedProvider → ℕ
total_from acc [] = acc
total_from acc (p ∷ ps) = total_from ((acc + p.weight) % u64_mod) ps

-- The loop that walks the weight ranges; `none` when it ends without a return.
unfoldable pub walk : (position cumulative : ℕ) → List WeightedProvider → Option WeightedProvider
walk position cumulative [] = none
walk position cumulative (p ∷ ps) =
    let reached = (cumulative + p.weight) % u64_mod in
    let rest = walk position reached ps in if ltb position reached then some p else rest

abbrev last_or : WeightedProvider → List WeightedProvider → WeightedProvider
last_or p [] = p
last_or p (q ∷ ps) = last_or q ps

abbrev or_last :
    Option WeightedProvider → WeightedProvider → List WeightedProvider → WeightedProvider
or_last (some found) p ps = found
or_last none p ps = last_or p ps

abbrev pub no_providers : GatewayError
no_providers = service_unavailable "No providers available"

-- `WeightedRoundRobin::select_provider`: the state is the atomic counter, a `u64`.
unfoldable pub select_provider : ℕ → List WeightedProvider → ℕ × Result WeightedProvider
select_provider counter [] = (counter, err no_providers)
select_provider counter (p ∷ []) = (counter, ok p)
select_provider counter (p ∷ q ∷ ps) =
    let total = total_from 0 (p ∷ q ∷ ps) in
    if total == 0
    then (counter, err no_providers)
    else ((counter + 1) % u64_mod, ok (or_last (walk (counter % total) 0 (p ∷ q ∷ ps)) p (q ∷ ps)))

-- `update_weights` keeps nothing: the weights come with each call.
unfoldable pub update_weights : ℕ → List WeightedProvider → ℕ
update_weights counter ps = counter

pub data RequestOutcome (T : Type 0) : Type 0 where
  success : T → RequestOutcome T
  retryable : String → RequestOutcome T
  non_retryable : GatewayError → RequestOutcome T

abbrev pub all_exhausted : GatewayError
all_exhausted = service_unavailable "All providers exhausted after failover attempts"

-- The providers whose names are not in the exclude list.
abbrev pub available : List String → List WeightedProvider → List WeightedProvider
available exclude ps = keep (λ p. not (contains exclude p.name)) ps

abbrev reason_or_unknown : Option String → String
reason_or_unknown none = "unknown"
reason_or_unknown (some reason) = reason

abbrev pub attempts_failed : Option String → GatewayError
attempts_failed last_error = service_unavailable (
    "All providers exhausted after "
    ⧺ (to_string max_retries ⧺ (" failover attempts. Last error: " ⧺ reason_or_unknown last_error)))

-- The trait: a balancer over a shared state `W`. Between two calls `W` may change as other
-- requests please, since the request below may change it in any way.
pub record LoadBalancer (W : Type 0) : Type 0 where
  pub select : W → List WeightedProvider → W × Result WeightedProvider

-- The round robin as an instance of the trait.
abbrev pub weighted_round_robin : LoadBalancer ℕ
weighted_round_robin = record { select = select_provider }

module _ {W : Type 0} (balancer : LoadBalancer W) (providers : List WeightedProvider) where
  unfoldable pub select_with_failover : W → List String → W × Result WeightedProvider
  select_with_failover w exclude =
      let remaining = available exclude providers in
      if is_empty remaining then (w, err all_exhausted) else balancer.select w remaining

module _ {W T : Type 0} (balancer : LoadBalancer W) (providers : List WeightedProvider)
    (request : W → WeightedProvider → W × RequestOutcome T) where
  -- The `for` loop, by the attempts that are left.
  unfoldable pub failover_loop : ℕ → List String → Option String → W → W × Result T
  failover_loop zero excluded last_error w = (w, err (attempts_failed last_error))
  failover_loop (suc n) excluded last_error w =
      let (w', selected) = select_with_failover balancer providers w excluded in
      elim selected [
        | err e ↦ (w', err e)
        | ok p ↦
            let (w'', outcome) = request w' p in
            elim outcome [
              | success t ↦ (w'', ok t)
              | retryable reason ↦ failover_loop n (excluded ++ p.name ∷ []) (some reason) w''
              | non_retryable e ↦ (w'', err e)
            ]
      ]

  unfoldable pub execute_with_failover : W → W × Result T
  unfolding failover_loop
  execute_with_failover w = failover_loop (suc max_retries) [] none w
