-- ===== src/RouteConfig/Valid.antt =====
-- What a valid configuration is: `validate` finds no error exactly when every route is well formed
-- and no two routes share path and method.
use melis.Common.{
  ℕ, suc, ◌≡◌, refl, ◌≢◌, ◌⊎◌, inl, inr, ◌↔◌, String, Bool, true, false, not, ◌&&◌, Option, none,
  some, List, [], ◌∷◌, ◌++◌, map, contains, In, All, is_blank, lookup, insert, lookup-insert,
  pair_eq, pair_beq_iff, string_eq, string_beq_iff, arith, Option-cases,
}
use melis.Common.{iff_trans, iff_×, iff_⊎, ||_iff, not_both_iff, not-eq-false_iff}
use melis.Float.{F64}
use melis.RouteConfig.{
  WeightedProvider, known_providers, RoutesConfigError, RouteDefinition, RouteConfigFile, error_if,
  is_known, provider_errors, list_errors, single_errors, Seen, route_key, has_provider,
  route_errors, is_keyed, duplicate_errors, remember, routes_errors, validate,
}

pub append-eq-nil {ℓ} : {A : Type ℓ} (xs ys : List A) → (xs ++ ys ≡ []) ↔ ((xs ≡ []) × (ys ≡ []))
append-eq-nil [] ys = (λ h. (refl, h), λ h. h.1)
append-eq-nil (x ∷ xs) ys = (λ h. cc, λ h. cc)

pub contains_iff : (xs : List String) (a : String) → (contains xs a ≡ true) ↔ In a xs
contains_iff [] a = (λ h. cc, λ h. absurd h)
contains_iff (x ∷ xs) a = ground (arith, string_beq_iff x a, contains_iff xs a)

-- A built-in provider, or one that the file registers.
abbrev pub Known : List String → String → Type 0
Known custom_names name = In name known_providers ⊎ In name custom_names

is_known_iff :
    (custom_names : List String) (name : String)
    → (is_known custom_names name ≡ true) ↔ Known custom_names name
is_known_iff custom_names name =
    iff_trans (||_iff (contains known_providers name) (contains custom_names name))
      (iff_⊎ (contains_iff known_providers name) (contains_iff custom_names name))

error_if_iff : (b : Bool) (e : RoutesConfigError) → (error_if b e ≡ []) ↔ (b ≡ false)
error_if_iff b e = ground arith

abbrev pub AllKnown : List String → Option (List WeightedProvider) → Type 0
AllKnown custom_names none = Unit
AllKnown custom_names (some ps) = All (λ p. Known custom_names p.name) ps

abbrev pub KnownOrBlank : List String → Option String → Type 0
KnownOrBlank custom_names none = Unit
KnownOrBlank custom_names (some p) = (is_blank p ≡ true) ⊎ Known custom_names p

provider_errors_iff :
    (custom_names : List String) (idx : ℕ) (ps : List WeightedProvider)
    → (provider_errors custom_names idx ps ≡ []) ↔ All (λ p. Known custom_names p.name) ps
unfolding provider_errors
provider_errors_iff custom_names idx [] = (λ h. tt, λ h. refl)
provider_errors_iff custom_names idx (p ∷ ps) =
    iff_trans (append-eq-nil _ (provider_errors custom_names idx ps)) (
      iff_×
        (iff_trans (error_if_iff (not (is_known custom_names p.name)) _)
          (iff_trans (not-eq-false_iff _) (is_known_iff custom_names p.name)))
        (provider_errors_iff custom_names idx ps))

list_errors_iff :
    (custom_names : List String) (idx : ℕ) (ps : Option (List WeightedProvider))
    → (list_errors custom_names idx ps ≡ []) ↔ AllKnown custom_names ps
list_errors_iff custom_names idx none = (λ h. tt, λ h. refl)
list_errors_iff custom_names idx (some ps) = provider_errors_iff custom_names idx ps

single_errors_iff :
    (custom_names : List String) (idx : ℕ) (p : Option String)
    → (single_errors custom_names idx p ≡ []) ↔ KnownOrBlank custom_names p
single_errors_iff custom_names idx none = (λ h. tt, λ h. refl)
single_errors_iff custom_names idx (some p) =
    iff_trans (error_if_iff (not (is_blank p) && not (is_known custom_names p)) _) (
      iff_trans (not_both_iff (is_blank p) (is_known custom_names p))
        (iff_⊎ (λ h. h, λ h. h) (is_known_iff custom_names p)))

module _ (f : F64) (upper : String → String) where
  -- A route with a path, a method and a provider, whose providers are known.
  abbrev pub IsGood : List String → RouteDefinition f → Type 0
  IsGood custom_names r =
      (is_blank r.path ≡ false)
      × ((is_blank r.method ≡ false)
          × ((has_provider f upper r ≡ true)
              × (KnownOrBlank custom_names r.provider × AllKnown custom_names r.providers)))

  -- No two routes share path and method, the method up to case.
  abbrev pub IsUnique : List (RouteDefinition f) → Type 0
  IsUnique [] = Unit
  IsUnique (r ∷ rs) = All (λ q. route_key f upper r ≢ route_key f upper q) rs × IsUnique rs

  route_errors_iff :
      (custom_names : List String) (idx : ℕ) (r : RouteDefinition f)
      → (route_errors f upper custom_names idx r ≡ []) ↔ IsGood custom_names r
  unfolding route_errors
  route_errors_iff custom_names idx r = iff_trans (append-eq-nil _ _) (
      iff_× (error_if_iff (is_blank r.path) _) (
        iff_trans (append-eq-nil _ _) (
          iff_× (error_if_iff (is_blank r.method) _) (
            iff_trans (append-eq-nil _ _) (
              iff_×
                (iff_trans (error_if_iff (not (has_provider f upper r)) _)
                  (not-eq-false_iff (has_provider f upper r)))
                (iff_trans (append-eq-nil _ _) (
                  iff_× (single_errors_iff custom_names idx r.provider)
                    (list_errors_iff custom_names idx r.providers))))))))

  abbrev IsNew : Seen → RouteDefinition f → Type 0
  IsNew seen r = lookup (route_key f upper r) seen ≡ none

  good_keyed :
      (custom_names : List String) (r : RouteDefinition f)
      → IsGood custom_names r
      → is_keyed f upper r ≡ true
  good_keyed custom_names r good = ground (arith, good.0, good.1.0)

  routes_errors-cons_to :
      (custom_names : List String) (idx : ℕ) (seen : Seen) (r : RouteDefinition f)
      (rs : List (RouteDefinition f))
      → routes_errors f upper custom_names idx seen (r ∷ rs) ≡ []
      → IsGood custom_names r
        × (IsNew seen r
            × (routes_errors f upper custom_names
                  (suc idx)
                  (insert (route_key f upper r) idx seen)
                  rs
                ≡ []))
  unfolding routes_errors
  routes_errors-cons_to custom_names idx seen r rs h =
      let own = ((append-eq-nil (route_errors f upper custom_names idx r) _).0 h).0 in
      let good = (route_errors_iff custom_names idx r).0 own in
      let keyed = good_keyed custom_names r good in
      let others =
        ((append-eq-nil (route_errors f upper custom_names idx r) _).0 (rw keyed at h)).1 in
      let first = lookup (route_key f upper r) seen in
      let (once, later) =
        (append-eq-nil (duplicate_errors f upper idx r first)
            (routes_errors f upper custom_names (suc idx) (remember f upper idx r first seen) rs)).0
          others in
      elim (Option-cases (lookup (route_key f upper r) seen)) [
        | inl new ↦ (good, (new, rw new at later))
        | inr (first, old) ↦ absurd (ground (arith, old, once))
      ]

  routes_errors-cons_from :
      (custom_names : List String) (idx : ℕ) (seen : Seen) (r : RouteDefinition f)
      (rs : List (RouteDefinition f))
      → IsGood custom_names r
      → IsNew seen r
      → routes_errors f upper custom_names (suc idx) (insert (route_key f upper r) idx seen) rs ≡ []
      → routes_errors f upper custom_names idx seen (r ∷ rs) ≡ []
  unfolding routes_errors
  routes_errors-cons_from custom_names idx seen r rs good new later =
      let own = (route_errors_iff custom_names idx r).1 good in
      rw own (rw (good_keyed custom_names r good) (rw new later))

  IsNew-insert_iff :
      (idx : ℕ) (seen : Seen) (r q : RouteDefinition f)
      → IsNew (insert (route_key f upper r) idx seen) q
        ↔ ((route_key f upper r ≢ route_key f upper q) × IsNew seen q)
  IsNew-insert_iff idx seen r q = ground (
    arith,
    lookup-insert (route_key f upper r) (route_key f upper q) idx seen,
    pair_beq_iff (route_key f upper r) (route_key f upper q),
  )

  All-IsNew-insert_iff :
      (idx : ℕ) (seen : Seen) (r : RouteDefinition f) (rs : List (RouteDefinition f))
      → All (IsNew (insert (route_key f upper r) idx seen)) rs
        ↔ (All (λ q. route_key f upper r ≢ route_key f upper q) rs × All (IsNew seen) rs)
  All-IsNew-insert_iff idx seen r [] = (λ h. (tt, tt), λ h. tt)
  All-IsNew-insert_iff idx seen r (q ∷ rs) =
      let (to, from) = IsNew-insert_iff idx seen r q in
      let (rest_to, rest_from) = All-IsNew-insert_iff idx seen r rs in
      (
        λ h. (((to h.0).0, (rest_to h.1).0), ((to h.0).1, (rest_to h.1).1)),
        λ h. (from (h.0.0, h.1.0), rest_from (h.0.1, h.1.1)),
      )

  routes_errors_iff :
      (custom_names : List String) (idx : ℕ) (seen : Seen) (rs : List (RouteDefinition f))
      → (routes_errors f upper custom_names idx seen rs ≡ [])
        ↔ (All (IsGood custom_names) rs × IsUnique rs × All (IsNew seen) rs)
  unfolding routes_errors
  routes_errors_iff custom_names idx seen [] = (λ h. (tt, tt, tt), λ h. refl)
  routes_errors_iff custom_names idx seen (r ∷ rs) =
      let (rest_to, rest_from) =
        routes_errors_iff custom_names (suc idx) (insert (route_key f upper r) idx seen) rs in
      let (new_to, new_from) = All-IsNew-insert_iff idx seen r rs in
      (
        λ h.
            let (good, (new, later)) = routes_errors-cons_to custom_names idx seen r rs h in
            let (goods, unique, news) = rest_to later in
            ((good, goods), ((new_to news).0, unique), (new, (new_to news).1)),
        λ (goods, unique, news).
            routes_errors-cons_from custom_names idx seen r rs goods.0 news.0
              (rest_from (goods.1, unique.1, new_from (unique.0, news.1))),
      )

  abbrev pub custom_names_of : RouteConfigFile f → List String
  custom_names_of config = map (λ c. c.name) config.custom_providers

  All-IsNew-nil : (rs : List (RouteDefinition f)) → All (IsNew []) rs
  All-IsNew-nil [] = tt
  All-IsNew-nil (r ∷ rs) = (refl, All-IsNew-nil rs)

  -- `validate` finds no error exactly when every route has a path, a method and a provider, every
  -- provider that it names is built in or registered, and no two routes share path and method.
  pub validate_iff :
      (config : RouteConfigFile f)
      → (validate f upper config ≡ [])
        ↔ (All (IsGood (custom_names_of config)) config.routes × IsUnique config.routes)
  unfolding validate
  validate_iff config =
      let (to, from) = routes_errors_iff (custom_names_of config) 0 [] config.routes in
      (λ h. ((to h).0, (to h).1), λ h. from (h.0, h.1, All-IsNew-nil config.routes))
