-- ===== src/Balancer/Failover/Attempts.antt =====
-- Which providers a request reaches: the loop, run with a log of the names that are asked.
use melis.Common.{
  ℕ, zero, suc, ◌+◌, ◌≤◌, ◌≡◌, refl, inl, inr, ◌∙◌, sym, ap, subst, String, Option, none, some,
  List, [], ◌∷◌, ◌++◌, map, In, In-keep, not, contains, All, All-append, length, length-append,
  string_eq, arith,
}
use melis.Error.{Result, ok, err}
use melis.RouteConfig.{WeightedProvider}
use melis.Balancer.{
  RequestOutcome, LoadBalancer, max_retries, select_with_failover, failover_loop,
  execute_with_failover,
}
use melis.Balancer.Select.{IsLoadBalancer}
use melis.Balancer.Failover.{
  Distinct, Distinct-concat, Round, refused, answered, retried, failed, round, selected-In,
}

-- The same balancer and request, over a state that also keeps the names asked so far.
abbrev pub Logged : Type 0 → Type 0
Logged W = W × List String

module _ {W : Type 0} where
  abbrev pub logged_balancer : LoadBalancer W → LoadBalancer (Logged W)
  logged_balancer balancer = record {
    select = λ s ps. let (w', selected) = balancer.select s.0 ps in ((w', s.1), selected);
  }

  logged_balancer-IsLoadBalancer :
      {balancer : LoadBalancer W}
      → IsLoadBalancer balancer
      → IsLoadBalancer (logged_balancer balancer)
  logged_balancer-IsLoadBalancer contract = record {
    selects = λ s. contract.selects s.0;
    refuses = λ s. contract.refuses s.0;
  }

  abbrev pub logged_request :
      {T : Type 0}
      → (W → WeightedProvider → W × RequestOutcome T)
      → Logged W
      → WeightedProvider
      → Logged W × RequestOutcome T
  logged_request request s p =
      let (w', outcome) = request s.0 p in ((w', s.1 ++ p.name ∷ []), outcome)

abbrev pub names : List WeightedProvider → List String
names ps = map (λ p. p.name) ps

pub In-names : (p : WeightedProvider) (ps : List WeightedProvider) → In p ps → In p.name (names ps)
In-names p [] m = absurd m
In-names p (q ∷ ps) (inl e) = inl (ap (λ (r : WeightedProvider). r.name) e)
In-names p (q ∷ ps) (inr m) = inr (In-names p ps m)

-- What the log of a run holds: no name twice, `most` names at most, and only listed ones.
pub record IsFair (providers : List WeightedProvider) (most : ℕ) (log : List String) : Type 0 where
  pub distinct : Distinct log
  pub bounded : length log ≤ most
  pub listed : All (λ name. In name (names providers)) log

module _ {W T : Type 0} {balancer : LoadBalancer W} (contract : IsLoadBalancer balancer)
    (providers : List WeightedProvider)
    (request : W → WeightedProvider → W × RequestOutcome T) where
  select-log :
      (s : Logged W) (excluded : List String)
      → (select_with_failover (logged_balancer balancer) providers s excluded).0.1 ≡ s.1
  unfolding select_with_failover
  select-log s excluded = ground arith

  IsFair-concat :
      (most : ℕ) (s : Logged W) (excluded : List String) (p : WeightedProvider)
      → (select_with_failover (logged_balancer balancer) providers s excluded).1 ≡ ok p
      → IsFair providers most excluded
      → IsFair providers (suc most) (excluded ++ p.name ∷ [])
  IsFair-concat most s excluded p chosen fair =
      let member =
        selected-In (logged_balancer-IsLoadBalancer contract) providers s excluded p chosen in
      let (listed, fresh) = In-keep (λ q. not (contains excluded q.name)) p providers member in
      record {
        distinct = Distinct-concat excluded p.name fair.distinct (ground arith);
        bounded = rw (length-append excluded (p.name ∷ [])) (omega (arith, fair.bounded));
        listed =
            All-append (λ name. In name (names providers)) excluded (p.name ∷ []) fair.listed
              (In-names p providers listed, tt);
      }

  IsFair-weaken :
      (n m : ℕ) (log : List String) → n ≤ m → IsFair providers n log → IsFair providers m log
  IsFair-weaken n m log h fair = record {
    distinct = fair.distinct;
    bounded = omega (arith, fair.bounded);
    listed = fair.listed;
  }

  abbrev loop : ℕ → List String → Option String → Logged W → Logged W × Result T
  loop = failover_loop (logged_balancer balancer) providers (logged_request request)

  abbrev Run : (n : ℕ) (excluded : List String) (s : Logged W) (r : Logged W × Result T) → Type 0
  Run = Round (logged_balancer balancer) providers (logged_request request)

  log_selected :
      (s s' : Logged W) (excluded : List String) (selected : Result WeightedProvider)
      → select_with_failover (logged_balancer balancer) providers s excluded ≡ (s', selected)
      → s.1 ≡ excluded
      → s'.1 ≡ excluded
  log_selected s s' excluded selected chosen kept =
      sym (ap (λ a. a.0.1) chosen) ∙ (select-log s excluded ∙ kept)

  log_asked :
      (s s' s'' : Logged W) (excluded : List String) (p : WeightedProvider)
      (outcome : RequestOutcome T)
      → select_with_failover (logged_balancer balancer) providers s excluded ≡ (s', ok p)
      → logged_request request s' p ≡ (s'', outcome)
      → s.1 ≡ excluded
      → s''.1 ≡ excluded ++ p.name ∷ []
  log_asked s s' s'' excluded p outcome chosen asked kept =
      sym (ap (λ a. a.0.1) asked)
      ∙ ap (λ l. l ++ p.name ∷ []) (log_selected s s' excluded (ok p) chosen kept)

  IsFair-asked :
      (n most : ℕ) (s : Logged W) (excluded log : List String) (p : WeightedProvider)
      → (select_with_failover (logged_balancer balancer) providers s excluded).1 ≡ ok p
      → log ≡ excluded ++ p.name ∷ []
      → IsFair providers most excluded
      → IsFair providers (most + suc n) log
  IsFair-asked n most s excluded log p chosen now fair =
      subst (IsFair providers (most + suc n)) (sym now) (
        IsFair-weaken (suc most) (most + suc n) _ (omega arith)
          (IsFair-concat most s excluded p chosen fair))

  Run-IsFair :
      (n most : ℕ) (excluded : List String) (s : Logged W) (r : Logged W × Result T)
      → Run n excluded s r
      → s.1 ≡ excluded
      → IsFair providers most excluded
      → ((excluded' : List String) (last_error : Option String) (s' : Logged W)
          → s'.1 ≡ excluded'
          → IsFair providers (suc most) excluded'
          → IsFair providers (suc most + n) (loop n excluded' last_error s').0.1)
      → IsFair providers (most + suc n) r.0.1
  Run-IsFair n most excluded s r (refused s' e chosen same) kept fair later =
      let now = ap (λ a. a.0.1) same ∙ log_selected s s' excluded (err e) chosen kept in
      subst (IsFair providers (most + suc n)) (sym now)
        (IsFair-weaken most (most + suc n) excluded (omega arith) fair)
  Run-IsFair n most excluded s r (answered s' s'' p t chosen asked same) kept fair later =
      IsFair-asked n most s excluded r.0.1 p (ap (λ a. a.1) chosen)
        (ap (λ a. a.0.1) same ∙ log_asked s s' s'' excluded p _ chosen asked kept) fair
  Run-IsFair n most excluded s r (retried s' s'' p reason chosen asked same) kept fair later =
      let more =
        later _ (some reason) s'' (log_asked s s' s'' excluded p _ chosen asked kept)
          (IsFair-concat most s excluded p (ap (λ a. a.1) chosen) fair) in
      IsFair-weaken (suc most + n) (most + suc n) _ (omega arith)
        (subst (IsFair providers (suc most + n)) (sym (ap (λ a. a.0.1) same)) more)
  Run-IsFair n most excluded s r (failed s' s'' p e chosen asked same) kept fair later =
      IsFair-asked n most s excluded r.0.1 p (ap (λ a. a.1) chosen)
        (ap (λ a. a.0.1) same ∙ log_asked s s' s'' excluded p _ chosen asked kept) fair

  loop-IsFair :
      (n most : ℕ) (excluded : List String) (last_error : Option String) (s : Logged W)
      → s.1 ≡ excluded
      → IsFair providers most excluded
      → IsFair providers (most + n) (loop n excluded last_error s).0.1
  unfolding failover_loop
  loop-IsFair zero most excluded last_error s kept fair =
      rw kept (IsFair-weaken most (most + 0) excluded (omega arith) fair)
  loop-IsFair (suc n) most excluded last_error s kept fair =
      Run-IsFair n most excluded s _
        (round (logged_balancer balancer) providers (logged_request request) n excluded last_error
          s)
        kept fair (loop-IsFair n (suc most))

  -- With a balancer that keeps the trait's contract, a run of `execute_with_failover` asks at most
  -- `max_retries + 1` providers, all of them listed, and none of them twice.
  pub execute_with_failover-IsFair :
      (w : W)
      → IsFair providers
          (max_retries + 1)
          (execute_with_failover
            (logged_balancer balancer)
            providers
            (logged_request request)
            (w, [])).0.1
  unfolding execute_with_failover
  execute_with_failover-IsFair w =
      loop-IsFair (suc max_retries) 0 [] none (w, []) refl
        (record { distinct = tt; bounded = omega arith; listed = tt })
