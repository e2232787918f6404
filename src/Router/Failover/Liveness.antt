-- ===== src/Router/Failover/Liveness.antt =====
-- A healthy provider is reached by the chat handler's failover.
use melis.Common.{
  ℕ, ◌≤◌, ◌≡◌, ◌≢◌, refl, ap, inl, inr, String, false, not, Option, none, List, [], min, length,
  contains, string_eq, string_beq_iff, ◌==◌, In, In-keep, In-keep_of, subst, length-keep-le,
  Bool-cases, arith,
}
use melis.Error.{GatewayError, Result, ok, err}
use melis.RouteConfig.{WeightedProvider}
use melis.Balancer.{LoadBalancer, available}
use melis.Balancer.Select.{IsLoadBalancer}
use melis.Balancer.Failover.{contains-concat}
use melis.Balancer.Failover.Liveness.{Accepts, available-concat, In-is_empty, In-length}
use melis.Router.Failover.{Attempt, finished, passed_over, Outcome, run_failover}
use melis.Router.Failover.Rounds.{Keeps, failover_keeps}

module _ {W T : Type 0} {balancer : LoadBalancer W} (contract : IsLoadBalancer balancer)
    (providers : List WeightedProvider) (attempt : W → WeightedProvider → W × Attempt T)
    (accepts : Accepts balancer providers) (healthy : WeightedProvider)
    (listed : In healthy providers) (Ready : W → Type 0)
    (select_ready : (w : W) (ps : List WeightedProvider) → Ready w → Ready (balancer.select w ps).0)
    (others_ready : (w : W) (p : WeightedProvider)
      → p.name ≢ healthy.name
      → Ready w
      → Ready (attempt w p).0)
    (soft : (w : W) (p : WeightedProvider) (e : GatewayError)
      → In p providers
      → p.name ≢ healthy.name
      → (attempt w p).1 ≢ finished (err e))
    (answers : (w : W) (p : WeightedProvider)
      → Ready w
      → p.name ≡ healthy.name
      → (t : T) × ((attempt w p).1 ≡ finished (ok t))) where
  -- The healthy provider is still to be asked, and there are attempts for all that are left.
  abbrev Before : ℕ → List String → W → Type 0
  Before k excluded w =
      (contains excluded healthy.name ≡ false)
      × (length (available excluded providers) ≤ k)
      × Ready w

  abbrev After : Outcome W T → Type 0
  After (w, excluded, r) = (t : T) × (r ≡ ok t)

  still_left :
      (excluded : List String)
      → contains excluded healthy.name ≡ false
      → In healthy (available excluded providers)
  still_left excluded out =
      In-keep_of (λ q. not (contains excluded q.name)) healthy providers listed (ground arith)

  -- Where an attempt passes a provider over, it was not the healthy one.
  other_name :
      (w w' : W) (p : WeightedProvider) (e : Option GatewayError)
      → Ready w
      → attempt w p ≡ (w', passed_over e)
      → (p.name == healthy.name) ≡ false
  other_name w w' p e ready asked = elim (Bool-cases (p.name == healthy.name)) [
    | inl same ↦
        let (t, here) = answers w p ready ((string_beq_iff p.name healthy.name).0 same) in
        absurd (cc (here, ap (λ a. a.1) asked))
    | inr other ↦ other
  ]

  differs : (p : WeightedProvider) → (p.name == healthy.name) ≡ false → p.name ≢ healthy.name
  differs p other same = cc (other, (string_beq_iff p.name healthy.name).1 same)

  answered_or_soft :
      (w w' : W) (p : WeightedProvider) (r : Result T)
      → Ready w
      → In p providers
      → attempt w p ≡ (w', finished r)
      → (t : T) × (r ≡ ok t)
  answered_or_soft w w' p (ok t) ready member asked = (t, refl)
  answered_or_soft w w' p (err e) ready member asked = elim (Bool-cases (p.name == healthy.name)) [
    | inl same ↦
        let (t, here) = answers w p ready ((string_beq_iff p.name healthy.name).0 same) in
        absurd (cc (here, ap (λ a. a.1) asked))
    | inr other ↦ absurd (soft w p e member (differs p other) (ap (λ a. a.1) asked))
  ]

  ready_then :
      (w w' : W) (ps : List WeightedProvider) (r : Result WeightedProvider)
      → Ready w
      → balancer.select w ps ≡ (w', r)
      → Ready w'
  ready_then w w' ps r ready chosen = subst Ready (ap (λ a. a.0) chosen) (select_ready w ps ready)

  keeps : Keeps balancer attempt providers Before After
  keeps = record {
    out_of_attempts = λ excluded e w b.
        absurd (omega (arith, b.1, In-length healthy _ (still_left excluded b.0)));
    none_left = λ k excluded e w b nothing.
        absurd (cc (nothing, In-is_empty healthy _ (still_left excluded b.0)));
    unselected = λ k excluded e w w' b some_left chosen.
        let (p, found) = accepts w excluded some_left in absurd (cc (found, ap (λ a. a.1) chosen));
    ended = λ k excluded w w' w'' p r b chosen asked.
        let member = contract.selects w (available excluded providers) p (ap (λ a. a.1) chosen) in
        answered_or_soft w' w'' p r (ready_then w w' _ _ b.2 chosen)
          (In-keep (λ q. not (contains excluded q.name)) p providers member).0 asked;
    went_on = λ k excluded w w' w'' p e b chosen asked.
        let member = contract.selects w (available excluded providers) p (ap (λ a. a.1) chosen) in
        let ready = ready_then w w' _ _ b.2 chosen in
        let other = other_name w' w'' p e ready asked in
        (
          ground (arith, other, contains-concat excluded p.name healthy.name),
          omega (arith, b.1, available-concat excluded p providers member),
          subst Ready (ap (λ a. a.0) asked) (others_ready w' p (differs p other) ready),
        );
  }

  -- If the balancer keeps the trait's contract and accepts whatever is left of the list, the healthy
  -- provider is listed, there are at most three providers, the state is ready and stays so under
  -- selections and attempts at other providers, none of which ends in a final error, and in a ready
  -- state the healthy provider answers, then the handler has an answer.
  pub run_failover-answered :
      length providers ≤ 3
      → (w : W) → Ready w
      → (t : T) × ((run_failover balancer attempt providers w).2 ≡ ok t)
  unfolding run_failover
  run_failover-answered few w ready =
      failover_keeps balancer attempt providers Before After keeps (min (length providers) 3) []
        none w
        (refl, omega (arith, length-keep-le (λ q. not (contains [] q.name)) providers), ready)
