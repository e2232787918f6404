-- ===== src/RouteConfig/Resolve.antt =====
-- What the resolver's table answers: over a valid configuration, the one route with the path and the
-- method, wherever it stands.
use melis.Common.{
  ℕ, zero, suc, ◌+◌, ◌≡◌, refl, sym, ap, ◌∙◌, subst, ◌≢◌, ◌⊎◌, inl, inr, ◌↔◌, String, true, Option,
  none, some, List, [], ◌∷◌, In, All, get_elem?, lookup, insert, lookup-insert, pair_eq, pair_beq,
  pair_beq_iff, ◌==◌, string_eq, if◌then◌else◌, arith, Bool-cases, Option-cases,
}
use melis.Float.{F64}
use melis.RouteConfig.{
  RouteDefinition, RouteConfigFile, Seen, route_key, validate, build_table, new_resolver, route_at,
  resolve_route,
}
use melis.RouteConfig.Valid.{IsUnique, validate_iff}

get_elem?-In : {A : Type 0} (xs : List A) (i : ℕ) (a : A) → get_elem? xs i ≡ some a → In a xs
get_elem?-In [] i a e = cc
get_elem?-In (x ∷ xs) zero a e = inl (cc)
get_elem?-In (x ∷ xs) (suc i) a e = inr (get_elem?-In xs i a e)

pub In-get_elem? :
    {A : Type 0} (xs : List A) (a : A) → In a xs → (i : ℕ) × (get_elem? xs i ≡ some a)
In-get_elem? [] a m = absurd m
In-get_elem? (x ∷ xs) a (inl e) = (0, ap some (sym e))
In-get_elem? (x ∷ xs) a (inr m) = let (i, e) = In-get_elem? xs a m in (suc i, e)

module _ (f : F64) (upper : String → String) where
  -- The last route with the key, by its index.
  found : (String × String) → ℕ → List (RouteDefinition f) → Option ℕ → Option ℕ
  found k idx [] acc = acc
  found k idx (r ∷ rs) acc =
      found k (suc idx) rs (if route_key f upper r == k then some idx else acc)

  lookup-build_table :
      (k : String × String) (idx : ℕ) (rs : List (RouteDefinition f)) (table : Seen)
      → lookup k (build_table f upper idx rs table) ≡ found k idx rs (lookup k table)
  unfolding build_table found
  lookup-build_table k idx [] table = refl
  lookup-build_table k idx (r ∷ rs) table =
      lookup-build_table k (suc idx) rs (insert (route_key f upper r) idx table)
      ∙ ap (found k (suc idx) rs) (lookup-insert (route_key f upper r) k idx table)

  found_miss :
      (k : String × String) (idx : ℕ) (rs : List (RouteDefinition f)) (acc : Option ℕ)
      → All (λ q. k ≢ route_key f upper q) rs
      → found k idx rs acc ≡ acc
  unfolding found
  found_miss k idx [] acc others = refl
  found_miss k idx (r ∷ rs) acc others = ground (
    arith,
    found_miss k (suc idx) rs acc others.1,
    others.0,
    pair_beq_iff (route_key f upper r) k,
  )

  found_head :
      (idx : ℕ) (q : RouteDefinition f) (rs : List (RouteDefinition f)) (acc : Option ℕ)
      → IsUnique f upper (q ∷ rs)
      → found (route_key f upper q) idx (q ∷ rs) acc ≡ some idx
  unfolding found
  found_head idx q rs acc unique =
      let k = route_key f upper q in
      let same : pair_beq k k ≡ true = (pair_beq_iff k k).1 refl in
      rw same (found_miss k (suc idx) rs (some idx) unique.0)

  found_hit :
      (idx i : ℕ) (rs : List (RouteDefinition f)) (r : RouteDefinition f) (acc : Option ℕ)
      → IsUnique f upper rs
      → get_elem? rs i ≡ some r
      → found (route_key f upper r) idx rs acc ≡ some (idx + i)
  unfolding found
  found_hit idx i [] r acc unique e = cc
  found_hit idx zero (q ∷ rs) r acc unique e =
      let same : q ≡ r = cc in
      subst (λ x. found (route_key f upper x) idx (q ∷ rs) acc ≡ some (idx + 0)) same
        (found_head idx q rs acc unique ∙ ap some (omega arith))
  found_hit idx (suc i) (q ∷ rs) r acc unique e =
      found_hit (suc idx) i rs r _ unique.1 e ∙ ap some (omega arith)

  -- An index that the table holds is that of a route with the key.
  IsAt : (String × String) → ℕ → List (RouteDefinition f) → ℕ → Type 0
  IsAt k idx rs j =
      (i : ℕ) × (r : RouteDefinition f) × (j ≡ idx + i)
      × (get_elem? rs i ≡ some r)
      × (route_key f upper r ≡ k)

  found_sound :
      (k : String × String) (idx j : ℕ) (rs : List (RouteDefinition f)) (acc : Option ℕ)
      → found k idx rs acc ≡ some j
      → (acc ≡ some j) ⊎ IsAt k idx rs j
  unfolding found IsAt
  found_sound k idx j [] acc e = inl e
  found_sound k idx j (r ∷ rs) acc e =
      elim (found_sound k (suc idx) j rs (if route_key f upper r == k then some idx else acc) e) [
        | inr (i, q, at, got, same) ↦ inr (suc i, q, omega arith, got, same)
        | inl kept ↦ elim (Bool-cases (route_key f upper r == k)) [
          | inl hit ↦ inr (0, r, ground arith, refl, (pair_beq_iff (route_key f upper r) k).0 hit)
          | inr miss ↦ inl (ground arith)
        ]
      ]

  -- Over a valid configuration a request is resolved to `r` exactly when `r` is one of its routes and
  -- has the path and, up to case, the method of the request; so at most one route answers, wherever
  -- it stands in the file.
  pub resolve_route_iff :
      (config : RouteConfigFile f) (path method : String) (r : RouteDefinition f)
      → validate f upper config ≡ []
      → (resolve_route f upper (new_resolver f upper config) path method ≡ some r)
        ↔ (In r config.routes × (r.path ≡ path) × (upper r.method ≡ upper method))
  unfolding resolve_route new_resolver IsAt
  resolve_route_iff config path method r valid = (to, from)
    where
      table_says :
          lookup (path, upper method) (build_table f upper 0 config.routes [])
          ≡ found (path, upper method) 0 config.routes none
      table_says = lookup-build_table (path, upper method) 0 config.routes []

      resolves :
          (j : ℕ)
          → found (path, upper method) 0 config.routes none ≡ some j
          → resolve_route f upper (new_resolver f upper config) path method
            ≡ get_elem? config.routes j
      resolves j at = ap (route_at f upper config.routes) (table_says ∙ at)

      to :
          resolve_route f upper (new_resolver f upper config) path method ≡ some r
          → In r config.routes × (r.path ≡ path) × (upper r.method ≡ upper method)
      to e = elim (Option-cases (found (path, upper method) 0 config.routes none)) [
        | inl absent ↦ absurd (ground (arith, table_says, absent))
        | inr (j, at) ↦ elim (found_sound (path, upper method) 0 j config.routes none at) [
          | inl nothing ↦ absurd (ground arith)
          | inr (i, q, index, got, same) ↦
              let here : j ≡ i = omega arith in
              let got_j : get_elem? config.routes j ≡ some q =
                ap (get_elem? config.routes) here ∙ got in
              let answer : get_elem? config.routes j ≡ some r = sym (resolves j at) ∙ e in
              let is_r : q ≡ r = cc in
              (
                get_elem?-In config.routes i r
                    (subst (λ x. get_elem? config.routes i ≡ some x) is_r got),
                ap (λ (x : RouteDefinition f). x.path) (sym is_r)
                    ∙ ap (λ (k : String × String). k.0) same,
                ap (λ (x : RouteDefinition f). upper x.method) (sym is_r)
                    ∙ ap (λ (k : String × String). k.1) same,
              )
        ]
      ]

      from :
          (In r config.routes × (r.path ≡ path) × (upper r.method ≡ upper method))
          → resolve_route f upper (new_resolver f upper config) path method ≡ some r
      from (member, same_path, same_method) =
          let (i, got) = In-get_elem? config.routes r member in
          let hit =
            found_hit 0 i config.routes r none ((validate_iff f upper config).0 valid).1 got in
          let key : route_key f upper r ≡ (path, upper method) =
            subst (λ p. route_key f upper r ≡ (p, upper method)) same_path
              (subst (λ m. route_key f upper r ≡ (r.path, m)) same_method refl) in
          resolves i
            (subst (λ k. found k 0 config.routes none ≡ some i) key (hit ∙ ap some (omega arith)))
          ∙ got
