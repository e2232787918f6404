-- ===== src/Router/Failover/Attempts.antt =====
-- Which providers the chat handler tries: the loop, run with a log of the names.
use melis.Common.{
  ℕ, suc, ◌+◌, ◌≤◌, ◌≡◌, refl, sym, ap, subst, ◌∙◌, String, not, none, List, [], ◌∷◌, ◌++◌, min,
  length, contains, string_eq, In, In-keep, All, All-append, length-append, arith,
}
use melis.Error.{Result, ok}
use melis.RouteConfig.{WeightedProvider}
use melis.Balancer.{LoadBalancer, available}
use melis.Balancer.Select.{IsLoadBalancer}
use melis.Balancer.Failover.{Distinct, Distinct-concat}
use melis.Balancer.Failover.Attempts.{Logged, logged_balancer, names, In-names, IsFair}
use melis.Router.Failover.{Attempt, finished, passed_over, Outcome, run_failover}
use melis.Router.Failover.Rounds.{Keeps, failover_keeps}

abbrev pub logged_attempt :
    {W T : Type 0}
    → (W → WeightedProvider → W × Attempt T)
    → Logged W
    → WeightedProvider
    → Logged W × Attempt T
logged_attempt attempt s p = let (w', a) = attempt s.0 p in ((w', s.1 ++ p.name ∷ []), a)

module _ {W T : Type 0} {balancer : LoadBalancer W} (contract : IsLoadBalancer balancer)
    (attempt : W → WeightedProvider → W × Attempt T) (providers : List WeightedProvider) where
  abbrev Listed : List String → Type 0
  Listed log = All (λ name. In name (names providers)) log

  -- The log is the exclude list, and there is room for the attempts that are left.
  abbrev Before : (most k : ℕ) → List String → Logged W → Type 0
  Before most k excluded s =
      (s.1 ≡ excluded) × Distinct excluded × (length excluded + k ≤ most) × Listed excluded

  abbrev After : (most : ℕ) → Outcome (Logged W) T → Type 0
  After most (s, excluded, r) = IsFair providers most s.1

  kept-IsFair :
      (most k : ℕ) (excluded : List String) (s : Logged W)
      → Before most k excluded s
      → IsFair providers most s.1
  kept-IsFair most k excluded s (kept, distinct, room, listed) =
      subst (IsFair providers most) (sym kept)
        (record { distinct = distinct; bounded = omega arith; listed = listed })

  select-log :
      (s s' : Logged W) (left : List WeightedProvider) (a : Result WeightedProvider)
      → (logged_balancer balancer).select s left ≡ (s', a)
      → s'.1 ≡ s.1
  select-log s s' left a chosen = sym (ap (λ x. x.0.1) chosen)

  tried :
      (most k : ℕ) (excluded : List String) (s s' s'' : Logged W) (p : WeightedProvider)
      (a : Attempt T)
      → Before most (suc k) excluded s
      → (logged_balancer balancer).select s (available excluded providers) ≡ (s', ok p)
      → logged_attempt attempt s' p ≡ (s'', a)
      → Before most k (excluded ++ p.name ∷ []) s''
  tried most k excluded s s' s'' p a (kept, distinct, room, listed) chosen asked =
      let member = contract.selects s.0 (available excluded providers) p (ap (λ x. x.1) chosen) in
      let (is_listed, fresh) = In-keep (λ q. not (contains excluded q.name)) p providers member in
      (
        sym (ap (λ x. x.0.1) asked)
            ∙ ap (λ l. l ++ p.name ∷ []) (select-log s s' _ _ chosen ∙ kept),
        Distinct-concat excluded p.name distinct (ground arith),
        rw (length-append excluded (p.name ∷ [])) (omega arith),
        All-append (λ name. In name (names providers)) excluded (p.name ∷ []) listed
            (In-names p providers is_listed, tt),
      )

  keeps :
      (most : ℕ)
      → Keeps
          (logged_balancer balancer)
          (logged_attempt attempt)
          providers
          (Before most)
          (After most)
  keeps most = record {
    out_of_attempts = λ excluded e s b. kept-IsFair most 0 excluded s b;
    none_left = λ k excluded e s b nothing. kept-IsFair most (suc k) excluded s b;
    unselected = λ k excluded e s s' b some_left chosen.
        rw (select-log s s' _ _ chosen) (kept-IsFair most (suc k) excluded s b);
    ended = λ k excluded s s' s'' p r b chosen asked.
        kept-IsFair most k (excluded ++ p.name ∷ []) s''
          (tried most k excluded s s' s'' p (finished r) b chosen asked);
    went_on = λ k excluded s s' s'' p e b chosen asked.
        tried most k excluded s s' s'' p (passed_over e) b chosen asked;
  }

  -- Whatever becomes of the attempts, and whatever a balancer that keeps the trait's contract
  -- chooses: the handler tries no name twice, tries at most as many providers as are listed and at
  -- most three, and tries only listed ones.
  pub run_failover-IsFair :
      (w : W)
      → IsFair providers
          (min (length providers) 3)
          (run_failover (logged_balancer balancer) (logged_attempt attempt) providers (w, [])).0.1
  unfolding run_failover
  run_failover-IsFair w =
      failover_keeps (logged_balancer balancer) (logged_attempt attempt) providers
        (Before (min (length providers) 3)) (After (min (length providers) 3))
        (keeps (min (length providers) 3)) (min (length providers) 3) [] none (w, [])
        (refl, tt, omega arith, tt)
