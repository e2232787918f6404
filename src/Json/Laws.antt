-- ===== src/Json/Laws.antt =====
-- An object as a map, and an array as a list.
use melis.Common.{
  ◌≡◌, inl, inr, refl, ap, subst, String, Option, none, some, List, [], ◌∷◌, string_eq,
  string_beq_iff, ◌==◌, if◌then◌else◌, arith, Bool-cases, All,
}
use melis.Json.{
  Numbers, Value, Fields, end, field, to_list, of_list, get, put, remove, keys, put_some,
}

module _ {n : Numbers} where
  pub to_list-of_list : (vs : List (Value n)) → to_list (of_list vs) ≡ vs
  to_list-of_list [] = refl
  to_list-of_list (v ∷ vs) = ap (λ ws. v ∷ ws) (to_list-of_list vs)

  pub get-put :
      (key other : String) (value : Value n) (fields : Fields n)
      → get other (put key value fields) ≡ (if key == other then some value else get other fields)
  get-put key other value end = refl
  get-put key other value (field k v rest) =
      let later = get-put key other value rest in
      ground (arith, string_beq_iff k other, string_beq_iff key other, string_beq_iff k key, later)

  -- The keys of a map are all different, as those of a `Map` are.
  abbrev pub IsMap : Fields n → Type 0
  IsMap end = Unit
  IsMap (field k v rest) = (get k rest ≡ none) × IsMap rest

  pub get-remove :
      (key other : String) (fields : Fields n)
      → IsMap fields
      → get other (remove key fields) ≡ (if key == other then none else get other fields)
  get-remove key other end h = ground arith
  get-remove key other (field k v rest) h =
      let later = get-remove key other rest h.1 in
      ground (
        arith,
        string_beq_iff k other,
        string_beq_iff key other,
        string_beq_iff k key,
        later,
        h.0,
        ap (λ s. get s rest),
      )

  pub put-IsMap :
      (key : String) (value : Value n) (fields : Fields n)
      → IsMap fields
      → IsMap (put key value fields)
  put-IsMap key value end h = (refl, tt)
  put-IsMap key value (field k v rest) h = elim (Bool-cases (k == key)) [
    | inl same ↦ rw same (subst (λ s. get s rest ≡ none) ((string_beq_iff k key).0 same) h.0, h.1)
    | inr other ↦ rw other (
      ground (arith, get-put key k value rest, string_beq_iff k key, string_beq_iff key k, h.0),
      put-IsMap key value rest h.1,
    )
  ]

  abbrev pub prefer : Option (Value n) → Option (Value n) → Option (Value n)
  prefer none later = later
  prefer (some v) later = some v

  pub get-put_some :
      (key other : String) (value : Option (Value n)) (fields : Fields n)
      → get other (put_some key value fields)
        ≡ (if key == other then prefer value (get other fields) else get other fields)
  get-put_some key other none fields = ground arith
  get-put_some key other (some v) fields = get-put key other v fields

  pub put_some-IsMap :
      (key : String) (value : Option (Value n)) (fields : Fields n)
      → IsMap fields
      → IsMap (put_some key value fields)
  put_some-IsMap key none fields h = h
  put_some-IsMap key (some v) fields h = put-IsMap key v fields h

  -- The keys of an object are among those allowed.
  pub All-keys-put :
      (P : String → Type 0) (key : String) (value : Value n) (fields : Fields n)
      → P key
      → All P (keys fields)
      → All P (keys (put key value fields))
  All-keys-put P key value end p h = (p, tt)
  All-keys-put P key value (field k v rest) p h = elim (Bool-cases (k == key)) [
    | inl same ↦ rw same (p, h.1)
    | inr other ↦ rw other (h.0, All-keys-put P key value rest p h.1)
  ]

  pub All-keys-put_some :
      (P : String → Type 0) (key : String) (value : Option (Value n)) (fields : Fields n)
      → P key
      → All P (keys fields)
      → All P (keys (put_some key value fields))
  All-keys-put_some P key none fields p h = h
  All-keys-put_some P key (some v) fields p h = All-keys-put P key v fields p h
