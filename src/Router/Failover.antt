-- ===== src/Router/Failover.antt =====
-- src/router.rs: the failover loop of the chat handler, over what one attempt does.
pub mod Rounds
pub mod Attempts
pub mod Liveness
use melis.Common.{
  ℕ, zero, suc, String, Option, none, some, List, [], ◌∷◌, ◌++◌, length, is_empty, min, unwrap_or,
  if◌then◌else◌,
}
use melis.Error.{GatewayError, service_unavailable, Result, ok, err}
use melis.RouteConfig.{WeightedProvider}
use melis.Balancer.{LoadBalancer, available}

-- An attempt ends the loop, or excludes the provider, with an error to remember unless the circuit
-- was open.
pub data Attempt (T : Type 0) : Type 0 where
  finished : Result T → Attempt T
  passed_over : Option GatewayError → Attempt T

abbrev pub exhausted : Option GatewayError → GatewayError
exhausted last_error = unwrap_or last_error (service_unavailable "All providers exhausted")

abbrev pub newer : Option GatewayError → Option GatewayError → Option GatewayError
newer none last_error = last_error
newer (some e) last_error = some e

-- The state, `excluded_providers` and the response.
abbrev pub Outcome : (W T : Type 0) → Type 0
Outcome W T = W × List String × Result T

module _ {W T : Type 0} where
  abbrev pub on_selected :
      (excluded : List String)
      → W × Result WeightedProvider
      → (W → WeightedProvider → Outcome W T)
      → Outcome W T
  on_selected excluded (w, err e) next = (w, excluded, err e)
  on_selected excluded (w, ok p) next = next w p

  abbrev pub on_attempt :
      (excluded : List String)
      → W × Attempt T
      → (W → Option GatewayError → Outcome W T)
      → Outcome W T
  on_attempt excluded (w, finished r) next = (w, excluded, r)
  on_attempt excluded (w, passed_over e) next = next w e

  module _ (balancer : LoadBalancer W) (attempt : W → WeightedProvider → W × Attempt T)
      (providers : List WeightedProvider) where
    -- The loop, by the attempts that are left.
    unfoldable pub failover :
        ℕ → (excluded_providers : List String) (last_error : Option GatewayError) → W → Outcome W T
    failover zero excluded last_error w = (w, excluded, err (exhausted last_error))
    failover (suc k) excluded last_error w =
        let left = available excluded providers in
        let again = failover k in
        if is_empty left
        then (w, excluded, err (exhausted last_error))
        else on_selected excluded (balancer.select w left) (λ w' p.
          on_attempt excluded (attempt w' p)
            (λ w'' e. again (excluded ++ p.name ∷ []) (newer e last_error) w''))

    abbrev pub max_attempts : ℕ
    max_attempts = min (length providers) 3

    unfoldable pub run_failover : W → Outcome W T
    unfolding failover
    run_failover w = failover max_attempts [] none w
