-- ===== src/Router/Routes/Reached.antt =====
-- src/router.rs: which handler a request for a path reaches.
use melis.Common.{
  ◌≡◌, ◌≢◌, ◌≤◌, refl, ap, ◌↔◌, ◌⊎◌, inl, inr, String, Bool, true, false, not, ◌&&◌, ◌||◌, List, [],
  ◌∷◌, In, map, any, contains, length, keep, string_eq, string_beq_iff, ◌==◌, arith, Bool-cases,
  iff_trans, iff_×, if◌then◌else◌,
}
use melis.Float.{F64}
use melis.RouteConfig.{RouteDefinition}
use melis.Router.Routes.{
  Verb, get, post, embeddings_endpoint, Registration, chat_at, chat_routes, build_router,
}

abbrev same_verb : Verb → Verb → Bool
same_verb get get = true
same_verb post post = true
same_verb get post = false
same_verb post get = false

-- The registrations that a request matches.
abbrev pub matching : Verb → String → List Registration → List Registration
matching v p = keep (λ r. same_verb r.verb v && r.path == p)

matching-chat_at :
    (q p : String) (rest : List Registration)
    → matching post p (chat_at q ∷ rest)
      ≡ (if q == p then chat_at p ∷ matching post p rest else matching post p rest)
matching-chat_at q p rest = elim (Bool-cases (q == p)) [
  | inl same ↦ rw same (ap (λ x. chat_at x ∷ matching post p rest) ((string_beq_iff q p).0 same))
  | inr other ↦ rw other refl
]

contains-same :
    (registered : List String) (q p : String)
    → (q == p) ≡ true
    → contains registered q ≡ contains registered p
contains-same registered q p same = ap (contains registered) ((string_beq_iff q p).0 same)

abbrev post_route : (p : String) → (is_embeddings is_served : Bool) → List Registration
post_route p true b =
    record { verb = post; path = "/v1/embeddings"; endpoint = embeddings_endpoint } ∷ []
post_route p false true = chat_at p ∷ []
post_route p false false = []

post_route_iff :
    (p : String) (a b : Bool)
    → (length (post_route p a b) ≤ 1)
      × ((post_route p a b ≡ chat_at p ∷ []) ↔ ((a ≢ true) × (b ≡ true)))
post_route_iff p true b = (omega arith, (λ h. cc, λ (h, k). absurd (h refl)))
post_route_iff p false true = (omega arith, (λ h. (λ k. cc, refl), λ h. refl))
post_route_iff p false false = (omega arith, (λ h. (λ k. cc, cc), λ (h, k). cc))

module _ {f : F64} where
  -- The default path, or one of the file.
  abbrev served : String → List (RouteDefinition f) → Bool
  served p routes = ("/v1/chat/completions" == p) || any (λ r. r.path == p) routes

  chat_routes-matching :
      (p : String) (registered : List String) (routes : List (RouteDefinition f))
      → matching post p (chat_routes registered routes)
        ≡ (if not (contains registered p) && served p routes then chat_at p ∷ [] else [])
  unfolding chat_routes
  chat_routes-matching p registered [] = ground (
    arith,
    matching-chat_at "/v1/chat/completions" p [],
    contains-same registered "/v1/chat/completions" p,
  )
  chat_routes-matching p registered (r ∷ rs) = ground (
    arith,
    matching-chat_at r.path p (chat_routes (r.path ∷ registered) rs),
    contains-same registered r.path p,
    chat_routes-matching p registered rs,
    chat_routes-matching p (r.path ∷ registered) rs,
  )

  served_iff :
      (p : String) (routes : List (RouteDefinition f))
      → (served p routes ≡ true) ↔ ((p ≡ "/v1/chat/completions") ⊎ In p (map (λ r. r.path) routes))
  served_iff p [] = ground (arith, string_beq_iff "/v1/chat/completions" p)
  served_iff p (r ∷ rs) = ground (arith, string_beq_iff r.path p, served_iff p rs)

  build_router-matching :
      (p : String) (routes : List (RouteDefinition f))
      → matching post p (build_router routes)
        ≡ post_route p ("/v1/embeddings" == p) (served p routes)
  unfolding build_router
  build_router-matching p routes = elim (Bool-cases ("/v1/embeddings" == p)) [
    | inl same ↦ ground (arith, chat_routes-matching p ("/v1/embeddings" ∷ []) routes)
    | inr other ↦ ground (arith, chat_routes-matching p ("/v1/embeddings" ∷ []) routes)
  ]

  -- However often the file names a path, it is registered for POST once at most, which axum requires.
  -- It is served by the chat handler exactly when it is not "/v1/embeddings", and is the default path
  -- or that of some route of the file, whatever the route's method.
  pub build_router_reaches :
      (p : String) (routes : List (RouteDefinition f))
      → (length (matching post p (build_router routes)) ≤ 1)
        × ((matching post p (build_router routes) ≡ chat_at p ∷ []) ↔ (
            (p ≢ "/v1/embeddings")
            × ((p ≡ "/v1/chat/completions") ⊎ In p (map (λ r. r.path) routes))))
  build_router_reaches p routes =
      let (once, reached) = post_route_iff p ("/v1/embeddings" == p) (served p routes) in
      let other : (("/v1/embeddings" == p) ≢ true) ↔ (p ≢ "/v1/embeddings") =
        ground (arith, string_beq_iff "/v1/embeddings" p) in
      rw (build_router-matching p routes)
        (once, iff_trans reached (iff_× other (served_iff p routes)))
