-- ===== src/Balancer/Select.antt =====
-- What one call of `select_provider` returns, against the plain division of the weight ranges, and
-- what a client of the `LoadBalancer` trait may rely on.
use melis.Common.{
  ℕ, ◌+◌, ◌-◌, ◌%◌, ◌≤◌, ◌<◌, ◌≡◌, refl, ◌↔◌, ◌⊎◌, inl, inr, String, Option, none, some, List, [],
  ◌∷◌, In, sum_of, length, ltb, if◌then◌else◌, arith, Bool-cases, false, ◌==◌, nat_eq, subst, ap,
  ◌∙◌,
}
use melis.Error.{GatewayError, service_unavailable, ok, err}
use melis.RouteConfig.{WeightedProvider}
use melis.Balancer.{
  u64_mod, total_from, walk, last_or, or_last, no_providers, select_provider, LoadBalancer,
  weighted_round_robin,
}

abbrev pub total : List WeightedProvider → ℕ
total ps = sum_of (λ p. p.weight) ps

-- The reference: the provider whose weight range, laid end to end, holds the position.
unfoldable pub owner : ℕ → List WeightedProvider → Option WeightedProvider
owner x [] = none
owner x (p ∷ ps) = if ltb x p.weight then some p else owner (x - p.weight) ps

pub total_from_lem :
    (acc : ℕ) (ps : List WeightedProvider)
    → acc + total ps < u64_mod
    → total_from acc ps ≡ acc + total ps
unfolding total_from
total_from_lem acc [] h = omega arith
total_from_lem acc (p ∷ ps) h =
    let fits : (acc + p.weight) % u64_mod ≡ acc + p.weight = omega arith in
    rw fits (omega (arith, total_from_lem (acc + p.weight) ps (omega arith)))

pub walk-eq-owner :
    (position cumulative : ℕ) (ps : List WeightedProvider)
    → cumulative ≤ position
    → cumulative + total ps < u64_mod
    → walk position cumulative ps ≡ owner (position - cumulative) ps
unfolding walk owner
walk-eq-owner position cumulative [] h f = refl
walk-eq-owner position cumulative (p ∷ ps) h f =
    let fits : (cumulative + p.weight) % u64_mod ≡ cumulative + p.weight = omega arith in
    rw fits (elim (Bool-cases (ltb position (cumulative + p.weight))) [
      | inl e ↦ ground arith
      | inr e ↦
          let ih = walk-eq-owner position (cumulative + p.weight) ps (ground arith) (omega arith) in
          let same : position - (cumulative + p.weight) ≡ position - cumulative - p.weight =
            omega arith in
          ground (arith, ih, same)
    ])

-- The owner of a position below the total exists, is listed and has a positive weight.
pub owner-total :
    (x : ℕ) (ps : List WeightedProvider)
    → x < total ps
    → (p : WeightedProvider) × (owner x ps ≡ some p) × In p ps × (0 < p.weight)
unfolding owner
owner-total x [] h = absurd (omega arith)
owner-total x (p ∷ ps) h = elim (Bool-cases (ltb x p.weight)) [
  | inl e ↦ (p, ground arith, inl refl, ground arith)
  | inr e ↦
      let (q, found, member, heavy) = owner-total (x - p.weight) ps (ground arith) in
      (q, ground arith, inr member, heavy)
]

walk-In :
    (position cumulative : ℕ) (ps : List WeightedProvider) (p : WeightedProvider)
    → walk position cumulative ps ≡ some p
    → In p ps
unfolding walk
walk-In position cumulative [] p e = cc
walk-In position cumulative (q ∷ ps) p e =
    ground (arith, walk-In position ((cumulative + q.weight) % u64_mod) ps p)

last_or-In : (p : WeightedProvider) (ps : List WeightedProvider) → In (last_or p ps) (p ∷ ps)
last_or-In p [] = inl refl
last_or-In p (q ∷ ps) = inr (last_or-In q ps)

or_last-In :
    (o : Option WeightedProvider) (p : WeightedProvider) (ps : List WeightedProvider)
    → ((found : WeightedProvider) → o ≡ some found → In found (p ∷ ps))
    → In (or_last o p ps) (p ∷ ps)
or_last-In none p ps h = last_or-In p ps
or_last-In (some found) p ps h = h found refl

-- Whatever the counter, a call either returns a listed provider or refuses as unavailable.
select_provider-In :
    (counter : ℕ) (ps : List WeightedProvider) (p : WeightedProvider)
    → (select_provider counter ps).1 ≡ ok p
    → In p ps
unfolding select_provider
select_provider-In counter [] p e = cc
select_provider-In counter (q ∷ []) p e = inl (cc)
select_provider-In counter (q ∷ r ∷ ps) p e =
    let position = counter % total_from 0 (q ∷ r ∷ ps) in
    let turn = walk position 0 (q ∷ r ∷ ps) in
    let member = or_last-In turn q (r ∷ ps) (walk-In position 0 (q ∷ r ∷ ps)) in
    elim (Bool-cases (total_from 0 (q ∷ r ∷ ps) == 0)) [
      | inl z ↦ absurd (ground arith)
      | inr z ↦ subst (λ x. In x (q ∷ r ∷ ps)) (ground arith) member
    ]

-- What a client of the trait relies on.
pub record IsLoadBalancer {W : Type 0} (balancer : LoadBalancer W) : Type 0 where
  pub selects :
      (w : W) (ps : List WeightedProvider) (p : WeightedProvider)
      → (balancer.select w ps).1 ≡ ok p
      → In p ps
  pub refuses :
      (w : W) (ps : List WeightedProvider) (e : GatewayError)
      → (balancer.select w ps).1 ≡ err e
      → (msg : String) × (e ≡ service_unavailable msg)

walk_from_zero :
    (position : ℕ) (ps : List WeightedProvider)
    → total ps < u64_mod
    → walk position 0 ps ≡ owner position ps
walk_from_zero position ps fits =
    let same : position - 0 ≡ position = omega arith in
    walk-eq-owner position 0 ps (omega arith) (omega arith) ∙ ap (λ x. owner x ps) same

total_from_zero : (ps : List WeightedProvider) → total ps < u64_mod → total_from 0 ps ≡ total ps
total_from_zero ps fits = omega (arith, total_from_lem 0 ps (omega arith))

module _ (counter : ℕ) (p q : WeightedProvider) (ps : List WeightedProvider)
    (weighted : 0 < total (p ∷ q ∷ ps)) (fits : total (p ∷ q ∷ ps) < u64_mod) where
  position_below : counter % total (p ∷ q ∷ ps) < total (p ∷ q ∷ ps)
  position_below = omega arith

  select_provider-owner :
      (chosen : WeightedProvider)
      → owner (counter % total (p ∷ q ∷ ps)) (p ∷ q ∷ ps) ≡ some chosen
      → select_provider counter (p ∷ q ∷ ps) ≡ ((counter + 1) % u64_mod, ok chosen)
  unfolding select_provider
  select_provider-owner chosen found =
      let nonzero : (total (p ∷ q ∷ ps) == 0) ≡ false = ground arith in
      rw (total_from_zero (p ∷ q ∷ ps) fits) (
        rw nonzero
          (rw (walk_from_zero (counter % total (p ∷ q ∷ ps)) (p ∷ q ∷ ps) fits) (rw found refl)))

  -- With two providers or more, whose weights sum to a positive number below 2 ^ 64, the call
  -- returns the owner of the tick's position, which is listed with a positive weight, and moves
  -- the counter on by one, modulo 2 ^ 64.
  pub select_provider_turn :
      (chosen : WeightedProvider) × (owner (counter % total (p ∷ q ∷ ps)) (p ∷ q ∷ ps)
        ≡ some chosen)
      × (select_provider counter (p ∷ q ∷ ps) ≡ ((counter + 1) % u64_mod, ok chosen))
      × In chosen (p ∷ q ∷ ps)
      × (0 < chosen.weight)
  select_provider_turn =
      let (chosen, found, member, heavy) = owner-total _ (p ∷ q ∷ ps) position_below in
      (chosen, found, select_provider-owner chosen found, member, heavy)

-- If the weights sum to less than 2 ^ 64, a call fails exactly when no provider is listed, or when
-- there are several and all the weights are zero; the error is then `no_providers`, and the
-- counter stays.
pub select_provider_fails_iff :
    (counter : ℕ) (ps : List WeightedProvider) (e : GatewayError)
    → total ps < u64_mod
    → ((select_provider counter ps ≡ (counter, err e))
        ↔ ((e ≡ no_providers) × ((ps ≡ []) ⊎ ((2 ≤ length ps) × (total ps ≡ 0)))))
unfolding select_provider
select_provider_fails_iff counter [] e fits = ground arith
select_provider_fails_iff counter (p ∷ []) e fits = ground arith
select_provider_fails_iff counter (p ∷ q ∷ ps) e fits =
    rw (total_from_zero (p ∷ q ∷ ps) fits) (ground arith)

select_provider-refuses :
    (counter : ℕ) (ps : List WeightedProvider) (e : GatewayError)
    → (select_provider counter ps).1 ≡ err e
    → (msg : String) × (e ≡ service_unavailable msg)
unfolding select_provider
select_provider-refuses counter [] e h = ("No providers available", cc)
select_provider-refuses counter (p ∷ []) e h = cc
select_provider-refuses counter (p ∷ q ∷ ps) e h = ("No providers available", ground arith)

-- The round robin keeps the trait's contract, whatever the counter and the weights.
pub weighted_round_robin-IsLoadBalancer : IsLoadBalancer weighted_round_robin
weighted_round_robin-IsLoadBalancer = record {
  selects = select_provider-In;
  refuses = select_provider-refuses;
}
