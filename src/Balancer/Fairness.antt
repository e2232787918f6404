-- ===== src/Balancer/Fairness.antt =====
-- The shares of the weighted round robin: over a whole cycle of ticks each provider is chosen as
-- often as its weight says, and over any number of calls the share is off by less than one cycle.
use melis.Common.{
  ℕ, zero, suc, ◌+◌, ◌-◌, ◌*◌, ◌/◌, ◌%◌, ◌≤◌, ◌<◌, ◌≡◌, refl, sym, ap, ◌∙◌, Bool, Option, none,
  some, List, [], ◌∷◌, sum_of, if◌then◌else◌, arith,
}
use melis.Error.{Result, ok, err}
use melis.RouteConfig.{WeightedProvider}
use melis.Balancer.{u64_mod, select_provider}
use melis.Balancer.Select.{total, owner, select_provider_turn}

-- g start + … + g (start + n - 1)
abbrev sum_range : (ℕ → ℕ) → ℕ → ℕ → ℕ
sum_range g start zero = 0
sum_range g start (suc n) = g start + sum_range g (suc start) n

sum_range_last :
    (g : ℕ → ℕ) (start n : ℕ) → sum_range g start (suc n) ≡ sum_range g start n + g (start + n)
sum_range_last g start zero = let e : start + 0 ≡ start = omega arith in rw e (omega arith)
sum_range_last g start (suc n) =
    let e : start + suc n ≡ suc start + n = omega arith in
    rw e (omega (arith, sum_range_last g (suc start) n))

sum_range_ext :
    (g h : ℕ → ℕ) (start start' n : ℕ)
    → ((i : ℕ) → i < n → g (start + i) ≡ h (start' + i))
    → sum_range g start n ≡ sum_range h start' n
sum_range_ext g h start start' zero same = refl
sum_range_ext g h start start' (suc n) same =
    let ih = sum_range_ext g h start start' n (λ i lt. same i (omega arith)) in
    sum_range_last g start n
    ∙ (omega (arith, ih, same n (omega arith)) ∙ sym (sum_range_last h start' n))

-- A window of one period may start anywhere.
sum_range_window :
    (g : ℕ → ℕ) (period start : ℕ)
    → 0 < period
    → sum_range (λ t. g (t % period)) start period ≡ sum_range g 0 period
sum_range_window g period zero pos =
    sum_range_ext (λ t. g (t % period)) g 0 0 period
      (λ i lt. let e : (0 + i) % period ≡ 0 + i = grind arith in ap g e)
sum_range_window g period (suc start) pos =
    let h : ℕ → ℕ = λ t. g (t % period) in
    let e : (start + period) % period ≡ start % period = grind arith in
    omega (arith, sum_range_window g period start pos, sum_range_last h start period, ap g e)

sum_range_split :
    (g : ℕ → ℕ) (start n m : ℕ)
    → sum_range g start (n + m) ≡ sum_range g start n + sum_range g (start + n) m
sum_range_split g start zero m =
    let e : start + 0 ≡ start = omega arith in
    let f : 0 + m ≡ m = omega arith in rw (e, f) (omega arith)
sum_range_split g start (suc n) m =
    let e : start + suc n ≡ suc start + n = omega arith in
    let f : suc n + m ≡ suc (n + m) = omega arith in
    rw (e, f) (omega (arith, sum_range_split g (suc start) n m))

sum_range_const :
    (g : ℕ → ℕ) (start n v : ℕ)
    → ((i : ℕ) → i < n → g (start + i) ≡ v)
    → sum_range g start n ≡ n * v
sum_range_const g start zero v same = omega arith
sum_range_const g start (suc n) v same = rw (sum_range_last g start n) (
    grind (arith, sum_range_const g start n v (λ i lt. same i (omega arith)), same n (omega arith)))

sum_range_periodic :
    (g : ℕ → ℕ) (period start k : ℕ)
    → 0 < period
    → sum_range (λ t. g (t % period)) start (k * period) ≡ k * sum_range g 0 period
sum_range_periodic g period start zero pos =
    let e : 0 * period ≡ 0 = omega arith in rw e (omega arith)
sum_range_periodic g period start (suc k) pos =
    let e : suc k * period ≡ period + k * period = grind arith in
    rw e (
      sum_range_split (λ t. g (t % period)) start period (k * period)
      ∙ grind (
        arith,
        sum_range_window g period start pos,
        sum_range_periodic g period (start + period) k pos,
      ))

sum_range_mono : (g : ℕ → ℕ) (start n m : ℕ) → n ≤ m → sum_range g start n ≤ sum_range g start m
sum_range_mono g start zero m h = omega arith
sum_range_mono g start (suc n) zero h = absurd (omega arith)
sum_range_mono g start (suc n) (suc m) h =
    omega (arith, sum_range_mono g (suc start) n m (omega arith))

div_mul_bounds : (n d : ℕ) → 0 < d → (n / d * d ≤ n) × (n ≤ suc (n / d) * d)
div_mul_bounds n d pos = (grind arith, grind arith)

sum_range_periodic_bounds :
    (g : ℕ → ℕ) (period start n : ℕ)
    → 0 < period
    → (n / period * sum_range g 0 period ≤ sum_range (λ t. g (t % period)) start n)
      × (sum_range (λ t. g (t % period)) start n ≤ suc (n / period) * sum_range g 0 period)
sum_range_periodic_bounds g period start n pos =
    let h : ℕ → ℕ = λ t. g (t % period) in
    let (low, high) = div_mul_bounds n period pos in
    (
      rw (← sum_range_periodic g period start (n / period) pos) (sum_range_mono h start _ n low),
      rw (← sum_range_periodic g period start (suc (n / period)) pos)
          (sum_range_mono h start n _ high),
    )

owner_head :
    (p : WeightedProvider) (ps : List WeightedProvider) (x : ℕ)
    → x < p.weight
    → owner x (p ∷ ps) ≡ some p
unfolding owner
owner_head p ps x lt = ground arith

owner_tail :
    (p : WeightedProvider) (ps : List WeightedProvider) (x y : ℕ)
    → x ≡ p.weight + y
    → owner x (p ∷ ps) ≡ owner y ps
unfolding owner
owner_tail p ps x y e = let same : x - p.weight ≡ y = omega arith in rw same (ground arith)

-- `n` successive calls, and their results.
pub selections : ℕ → ℕ → List WeightedProvider → List (Result WeightedProvider)
selections zero counter ps = []
selections (suc n) counter ps =
    let (counter', selected) = select_provider counter ps in selected ∷ selections n counter' ps

module _ (f : WeightedProvider → Bool) where
  -- 1 for a choice that satisfies `f`.
  abbrev pub hit : Option WeightedProvider → ℕ
  hit none = 0
  hit (some p) = if f p then 1 else 0

  -- The weight of the providers that satisfy `f`.
  abbrev pub weight_of : List WeightedProvider → ℕ
  weight_of ps = sum_of (λ p. if f p then p.weight else 0) ps

  -- How many of the results are providers that satisfy `f`.
  abbrev pub hits : List (Result WeightedProvider) → ℕ
  hits [] = 0
  hits (ok p ∷ rs) = (if f p then 1 else 0) + hits rs
  hits (err e ∷ rs) = hits rs

  owner_shares :
      (ps : List WeightedProvider) → sum_range (λ x. hit (owner x ps)) 0 (total ps) ≡ weight_of ps
  owner_shares [] = refl
  owner_shares (p ∷ ps) =
      let g : ℕ → ℕ = λ x. hit (owner x (p ∷ ps)) in
      let first =
        sum_range_const g 0 p.weight (if f p then 1 else 0)
          (λ i lt. ap hit (owner_head p ps (0 + i) (omega arith))) in
      let second =
        sum_range_ext g (λ x. hit (owner x ps)) (0 + p.weight) 0 (total ps)
          (λ i lt. ap hit (owner_tail p ps (0 + p.weight + i) (0 + i) (omega arith))) in
      sum_range_split g 0 p.weight (total ps) ∙ ground (arith, first, second, owner_shares ps)

module _ (f : WeightedProvider → Bool) (p q : WeightedProvider) (ps : List WeightedProvider)
    (weighted : 0 < total (p ∷ q ∷ ps)) (fits : total (p ∷ q ∷ ps) < u64_mod) where
  -- The choice at a tick.
  abbrev choice : ℕ → ℕ
  choice t = hit f (owner (t % total (p ∷ q ∷ ps)) (p ∷ q ∷ ps))

  hits-selections :
      (n counter : ℕ)
      → counter + n < u64_mod
      → hits f (selections n counter (p ∷ q ∷ ps)) ≡ sum_range choice counter n
  unfolding selections
  hits-selections zero counter bound = refl
  hits-selections (suc n) counter bound =
      let (chosen, found, step, member, heavy) =
        select_provider_turn counter p q ps weighted fits in
      let next : (counter + 1) % u64_mod ≡ suc counter = omega arith in
      let ih = hits-selections n (suc counter) (omega arith) in
      rw (step, next, found) (omega (arith, ih))

  -- With two providers or more, whose weights sum to a positive number below 2 ^ 64: over whole
  -- cycles of calls the providers that satisfy `f` are chosen exactly as often as their weight
  -- says, from any tick at which the counter does not wrap within the run.
  pub selections_cycles :
      (k counter : ℕ)
      → counter + k * total (p ∷ q ∷ ps) < u64_mod
      → hits f (selections (k * total (p ∷ q ∷ ps)) counter (p ∷ q ∷ ps))
        ≡ k * weight_of f (p ∷ q ∷ ps)
  selections_cycles k counter bound =
      hits-selections _ counter bound
      ∙ (sum_range_periodic (λ x. hit f (owner x (p ∷ q ∷ ps))) _ counter k weighted
          ∙ ap (λ s. k * s) (owner_shares f (p ∷ q ∷ ps)))

  -- With two providers or more, whose weights sum to a positive number below 2 ^ 64: over any `n`
  -- calls in which the counter does not wrap, the providers that satisfy `f` are chosen at least
  -- their weight for each whole cycle in `n`, and at most one cycle's more.
  pub selections_share :
      (n counter : ℕ)
      → counter + n < u64_mod
      → (n / total (p ∷ q ∷ ps) * weight_of f (p ∷ q ∷ ps)
          ≤ hits f (selections n counter (p ∷ q ∷ ps)))
        × (hits f (selections n counter (p ∷ q ∷ ps))
            ≤ suc (n / total (p ∷ q ∷ ps)) * weight_of f (p ∷ q ∷ ps))
  selections_share n counter bound =
      let (low, high) =
        sum_range_periodic_bounds (λ x. hit f (owner x (p ∷ q ∷ ps))) _ counter n weighted in
      rw (hits-selections n counter bound, ← owner_shares f (p ∷ q ∷ ps)) (low, high)
