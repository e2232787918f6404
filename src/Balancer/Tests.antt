-- ===== src/Balancer/Tests.antt =====
-- Runs of the balancer at concrete providers, and its theorems at inputs that meet their hypotheses.
use melis.Common.{
  ℕ, ◌+◌, ◌%◌, ◌*◌, ◌<◌, ◌≡◌, refl, ◌≢◌, inl, inr, String, Bool, some, List, [], ◌∷◌, arith, ◌==◌,
  string_eq, In, if◌then◌else◌, string_beq_iff,
}
use melis.Error.{GatewayError, ok, err}
use melis.RouteConfig.{WeightedProvider}
use melis.Balancer.{
  u64_mod, select_provider, no_providers, total_from, walk, RequestOutcome, success, retryable,
  non_retryable, weighted_round_robin, execute_with_failover, failover_loop, select_with_failover,
  max_retries,
}
use melis.Balancer.Select.{total, owner, select_provider_turn, weighted_round_robin-IsLoadBalancer}
use melis.Balancer.Fairness.{hits, weight_of, selections, selections_cycles}
use melis.Balancer.Failover.Sources.{IsExplained, execute_with_failover-IsExplained}
use melis.Balancer.Failover.Attempts.{
  IsFair, logged_balancer, logged_request, execute_with_failover-IsFair,
}
use melis.Balancer.Failover.Liveness.{weighted_round_robin-Accepts, execute_with_failover-answered}

balancer : Unit {0}
unfolding select_provider total_from walk execute_with_failover failover_loop select_with_failover
balancer = tt

abbrev provider : String → ℕ → WeightedProvider
provider name weight = record { name = name; weight = weight; model = "m" }

abbrev openai : WeightedProvider
openai = provider "openai" 60

abbrev anthropic : WeightedProvider
anthropic = provider "anthropic" 30

abbrev vertex : WeightedProvider
vertex = provider "vertex" 10

abbrev three : List WeightedProvider
three = openai ∷ anthropic ∷ vertex ∷ []

select_provider_tests :
    (select_provider 59 three ≡ (60, ok openai))
    × (select_provider 60 three ≡ (61, ok anthropic))
    × (select_provider 199 three ≡ (200, ok vertex))
    × (select_provider 5 [] ≡ (5, err no_providers))
    × (select_provider 5 (provider "a" 0 ∷ []) ≡ (5, ok (provider "a" 0)))
    × (select_provider 5 (provider "a" 0 ∷ provider "b" 0 ∷ []) ≡ (5, err no_providers))
unfolding balancer
select_provider_tests = (refl, refl, refl, refl, refl, refl)

-- A world in which only "vertex" answers, with its own name.
only_vertex : ℕ → WeightedProvider → ℕ × RequestOutcome String
only_vertex w p = (w, if p.name == "vertex" then success p.name else retryable "timeout")

failover_test : execute_with_failover weighted_round_robin three only_vertex 0 ≡ (2, ok "vertex")
unfolding balancer only_vertex
failover_test = refl

select_provider_turn_example :
    (chosen : WeightedProvider) × (owner (60 % total three) three ≡ some chosen)
    × (select_provider 60 three ≡ ((60 + 1) % u64_mod, ok chosen))
    × In chosen three
    × (0 < chosen.weight)
select_provider_turn_example =
    select_provider_turn 60 openai anthropic (vertex ∷ []) (omega arith) (omega arith)

abbrev is_openai : WeightedProvider → Bool
is_openai p = p.name == "openai"

execute_with_failover-IsExplained_example :
    IsExplained weighted_round_robin-IsLoadBalancer three only_vertex
      (execute_with_failover weighted_round_robin three only_vertex 0).1
execute_with_failover-IsExplained_example =
    execute_with_failover-IsExplained weighted_round_robin-IsLoadBalancer three only_vertex 0

execute_with_failover-IsFair_example :
    IsFair three
      (max_retries + 1)
      (execute_with_failover
        (logged_balancer weighted_round_robin)
        three
        (logged_request only_vertex)
        (0, [])).0.1
execute_with_failover-IsFair_example =
    execute_with_failover-IsFair weighted_round_robin-IsLoadBalancer three only_vertex 0

only_vertex_soft :
    (w : ℕ) (p : WeightedProvider) (e : GatewayError) → (only_vertex w p).1 ≢ non_retryable e
unfolding only_vertex
only_vertex_soft w p e = ground arith

only_vertex_answers :
    (w : ℕ) (p : WeightedProvider)
    → p.name ≡ vertex.name
    → (t : String) × ((only_vertex w p).1 ≡ success t)
unfolding only_vertex
only_vertex_answers w p e = (p.name, ground (arith, string_beq_iff p.name "vertex"))

execute_with_failover-answered_example :
    (t : String) × ((execute_with_failover weighted_round_robin three only_vertex 5).1 ≡ ok t)
execute_with_failover-answered_example =
    execute_with_failover-answered weighted_round_robin-IsLoadBalancer three only_vertex
      (weighted_round_robin-Accepts three (omega arith) (omega arith)) only_vertex_soft vertex
      only_vertex_answers (inr (inr (inl refl))) (omega arith) 5

selections_cycles_example :
    hits is_openai (selections (10 * total three) 7 three) ≡ 10 * weight_of is_openai three
selections_cycles_example =
    selections_cycles is_openai openai anthropic (vertex ∷ []) (omega arith) (omega arith) 10 7
      (omega arith)
