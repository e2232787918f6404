-- ===== src/Routing/Order.antt =====
-- Which of the providers of a model answers, and when none does.
use melis.Common.{
  ◌≡◌, refl, sym, ap, ◌∙◌, inl, inr, ◌↔◌, iff_trans, String, Option, none, some, List, [], ◌∷◌, All,
  ◌++◌, map, contains, string_eq, ◌==◌, if◌then◌else◌, Bool-cases,
}
use melis.Float.{F64}
use melis.Error.{ok}
use melis.Config.{ProviderConfig}
use melis.RouteConfig.{WeightedProvider, RouteDefinition, RouteConfigFile}
use melis.Routing.{
  find_provider_by_model, weighted_by_model, or_else, weighted_in, single_in,
  find_provider_in_routes, or_not_configured, validate_model_routing,
}

-- The first answer of a list.
abbrev first : List (Option String) → Option String
first [] = none
first (o ∷ os) = or_else o (first os)

-- `name` is the first answer of a list.
abbrev pub IsFirstAnswer : String → List (Option String) → Type 0
IsFirstAnswer name os =
    (before : List (Option String)) × (after : List (Option String)) × (os
      ≡ before ++ (some name ∷ after))
    × All (λ o. o ≡ none) before

abbrev pub by_provider : String → ProviderConfig → Option String
by_provider model p = if contains p.models model then some p.id else none

abbrev pub by_weighted : String → WeightedProvider → Option String
by_weighted model wp = if wp.model == model then some wp.name else none

abbrev pub by_weighteds : String → Option (List WeightedProvider) → List (Option String)
by_weighteds model none = []
by_weighteds model (some wps) = map (by_weighted model) wps

first-IsFirstAnswer :
    (os : List (Option String)) (name : String) → first os ≡ some name → IsFirstAnswer name os
first-IsFirstAnswer [] name h = cc
first-IsFirstAnswer (none ∷ os) name h =
    let (before, after, split, nones) = first-IsFirstAnswer os name h in
    (none ∷ before, after, ap (λ xs. none ∷ xs) split, (refl, nones))
first-IsFirstAnswer (some n ∷ os) name h = ([], os, ap (λ x. x ∷ os) h, tt)

first-append :
    (before after : List (Option String)) (name : String)
    → All (λ o. o ≡ none) before
    → first (before ++ (some name ∷ after)) ≡ some name
first-append [] after name h = refl
first-append (none ∷ os) after name h = first-append os after name h.1
first-append (some n ∷ os) after name h = cc (h.0)

first-eq-some_iff :
    (os : List (Option String)) (name : String) → (first os ≡ some name) ↔ IsFirstAnswer name os
first-eq-some_iff os name = (
  first-IsFirstAnswer os name,
  λ (before, after, split, nones). ap first split ∙ first-append before after name nones,
)

first-two : (os ps : List (Option String)) → first (os ++ ps) ≡ or_else (first os) (first ps)
first-two [] ps = refl
first-two (none ∷ os) ps = first-two os ps
first-two (some n ∷ os) ps = refl

find_provider_by_model-first :
    (model : String) (ps : List ProviderConfig)
    → find_provider_by_model model ps ≡ first (map (by_provider model) ps)
unfolding find_provider_by_model
find_provider_by_model-first model [] = refl
find_provider_by_model-first model (p ∷ ps) =
    let rest = find_provider_by_model-first model ps in
    elim (Bool-cases (contains p.models model)) [
      | inl serves ↦ rw serves refl
      | inr other ↦ rw other rest
    ]

weighted_by_model-first :
    (model : String) (wps : List WeightedProvider)
    → weighted_by_model model wps ≡ first (map (by_weighted model) wps)
unfolding weighted_by_model
weighted_by_model-first model [] = refl
weighted_by_model-first model (wp ∷ wps) =
    let rest = weighted_by_model-first model wps in
    elim (Bool-cases (wp.model == model)) [
      | inl serves ↦ rw serves refl
      | inr other ↦ rw other rest
    ]

weighted_in-first :
    (model : String) (wps : Option (List WeightedProvider))
    → weighted_in model wps ≡ first (by_weighteds model wps)
weighted_in-first model none = refl
weighted_in-first model (some wps) = weighted_by_model-first model wps

or_not_configured_iff :
    (model name : String) (o : Option String)
    → (or_not_configured model o ≡ ok name) ↔ (o ≡ some name)
or_not_configured_iff model name none = (λ h. cc, λ h. cc)
or_not_configured_iff model name (some n) = (λ h. cc, λ h. cc)

module _ (f : F64) where
  -- What each source names for the model, in the order in which they count: the providers of the
  -- global configuration, then route by route the single provider and the weighted ones.
  abbrev pub route_answers : String → List (RouteDefinition f) → List (Option String)
  route_answers model [] = []
  route_answers model (r ∷ rs) =
      (single_in model r.model r.provider ∷ by_weighteds model r.providers)
      ++ route_answers model rs

  abbrev pub answers : String → List ProviderConfig → RouteConfigFile f → List (Option String)
  answers model providers config =
      map (by_provider model) providers ++ route_answers model config.routes

  find_provider_in_routes-first :
      (model : String) (rs : List (RouteDefinition f))
      → find_provider_in_routes f model rs ≡ first (route_answers model rs)
  unfolding find_provider_in_routes
  find_provider_in_routes-first model [] = refl
  find_provider_in_routes-first model (r ∷ rs) =
      rw (weighted_in-first model r.providers, find_provider_in_routes-first model rs)
        (sym (
          first-two (single_in model r.model r.provider ∷ by_weighteds model r.providers)
            (route_answers model rs)))

  -- A model is routed to `name` exactly when `name` is the first answer of the sources, in their
  -- order: a provider of the global configuration that lists the model counts before every route,
  -- and a model that no source serves is refused.
  pub validate_model_routing_iff :
      (model name : String) (providers : List ProviderConfig) (config : RouteConfigFile f)
      → (validate_model_routing f model providers config ≡ ok name)
        ↔ IsFirstAnswer name (answers model providers config)
  unfolding validate_model_routing
  validate_model_routing_iff model name providers config =
      iff_trans (or_not_configured_iff model name _) (
        rw
          (
            find_provider_by_model-first model providers,
            find_provider_in_routes-first model config.routes,
            sym (first-two (map (by_provider model) providers) (route_answers model config.routes)),
          )
          (first-eq-some_iff (answers model providers config) name))
