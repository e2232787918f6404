-- ===== src/Router/Payload/Valid.antt =====
-- src/router.rs: which chat requests pass the checks, and how the others fail.
use melis.Common.{
  ℕ, ◌+◌, ◌≡◌, ◌≢◌, refl, ◌↔◌, inl, inr, String, true, Option, none, some, List, [], ◌∷◌, All,
  string_eq, string_beq_iff, Bool-cases, arith,
}
use melis.Json.{Numbers, Value, Items, null, string, array, nil, cons, at, to_list}
use melis.Error.{ok, >>=-eq-ok}
use melis.Router.Payload.{
  filled_text, check_model, check_messages, check_each, validate_chat_payload,
}

module _ {n : Numbers} where
  -- A member that is a text with something in it.
  abbrev pub HasText : String → Value n → Type 0
  HasText key v = (s : String) × (at key v ≡ some (string s)) × (s ≢ "")

  abbrev pub IsMessage : Value n → Type 0
  IsMessage msg = HasText "role" msg × HasText "content" msg

  abbrev pub IsChat : Value n → Type 0
  IsChat payload =
      HasText "model" payload
      × ((first : Value n) × (rest : Items n) × (at "messages" payload
            ≡ some (array (cons first rest)))
          × All IsMessage (first ∷ to_list rest))

  filled_text_iff :
      (v : Option (Value n))
      → (filled_text v ≡ true) ↔ ((s : String) × (v ≡ some (string s)) × (s ≢ ""))
  filled_text_iff (some (string s)) = (to, from)
    where
      to :
          filled_text {n = n} (some (string s)) ≡ true
          → (t : String) × (◌≡◌ {A = Option (Value n)} (some (string s)) (some (string t)))
            × (t ≢ "")
      to h = (s, refl, ground (arith, string_beq_iff s ""))

      from :
          ((t : String) × (◌≡◌ {A = Option (Value n)} (some (string s)) (some (string t)))
            × (t ≢ ""))
          → filled_text {n = n} (some (string s)) ≡ true
      from (t, e, full) = ground (arith, string_beq_iff s "")
  filled_text_iff (some null) = ((λ h. cc), (λ h. cc (h.1)))
  filled_text_iff _ = ((λ h. cc), (λ h. cc (h.1)))

  check_head_iff :
      (i : ℕ) (m : Value n) (ms : List (Value n))
      → ((check_each (i + 1) ms ≡ ok tt) ↔ All IsMessage ms)
      → (check_each i (m ∷ ms) ≡ ok tt) ↔ All IsMessage (m ∷ ms)
  unfolding check_each
  check_head_iff i m ms later = (to, from)
    where
      role : (filled_text (at "role" m) ≡ true) ↔ HasText "role" m
      role = filled_text_iff (at "role" m)

      content : (filled_text (at "content" m) ≡ true) ↔ HasText "content" m
      content = filled_text_iff (at "content" m)

      to : check_each i (m ∷ ms) ≡ ok tt → All IsMessage (m ∷ ms)
      to h = elim (Bool-cases (filled_text (at "role" m))) [
        | inl r ↦ elim (Bool-cases (filled_text (at "content" m))) [
          | inl c ↦ ((role.0 r, content.0 c), later.0 (ground arith))
          | inr c ↦ absurd (ground arith)
        ]
        | inr r ↦ absurd (ground arith)
      ]

      from : All IsMessage (m ∷ ms) → check_each i (m ∷ ms) ≡ ok tt
      from h = rw (role.1 h.0.0) (rw (content.1 h.0.1) (later.1 h.1))

  check_each_iff :
      (i : ℕ) (msgs : List (Value n)) → (check_each i msgs ≡ ok tt) ↔ All IsMessage msgs
  unfolding check_each
  check_each_iff i [] = ((λ h. tt), (λ h. refl))
  check_each_iff i (m ∷ ms) = check_head_iff i m ms (check_each_iff (i + 1) ms)

  check_messages-eq-ok :
      (v : Option (Value n)) (msgs : List (Value n))
      → check_messages v ≡ ok msgs
      → (first : Value n) × (rest : Items n) × (v ≡ some (array (cons first rest)))
        × (msgs ≡ first ∷ to_list rest)
  check_messages-eq-ok (some (array (cons first rest))) msgs h = (first, rest, refl, cc)
  check_messages-eq-ok (some (array nil)) msgs h = cc
  check_messages-eq-ok none msgs h = cc
  check_messages-eq-ok (some _) msgs h = cc

  check_model_iff : (v : Option (Value n)) → (check_model v ≡ ok tt) ↔ (filled_text v ≡ true)
  check_model_iff (some (string s)) = (λ h. ground arith, λ h. ground arith)
  check_model_iff none = (λ h. cc, λ h. cc)
  check_model_iff _ = (λ h. cc, λ h. cc)

  -- A request passes exactly when its model is a text that is not empty, and its messages are an
  -- array with at least one, each of which has a role and a content that are texts and not empty.
  pub validate_chat_payload_iff :
      (payload : Value n) → (validate_chat_payload payload ≡ ok tt) ↔ IsChat payload
  unfolding validate_chat_payload
  validate_chat_payload_iff payload = (to, from)
    where
      to : validate_chat_payload payload ≡ ok tt → IsChat payload
      to h =
          let (u, model, h') = >>=-eq-ok (check_model (at "model" payload)) _ h in
          let (msgs, listed, h'') =
            >>=-eq-ok (check_messages (at "messages" payload)) (check_each 0) h' in
          let (first, rest, shape, same) =
            check_messages-eq-ok (at "messages" payload) msgs listed in
          (
            (filled_text_iff (at "model" payload)).0
                ((check_model_iff (at "model" payload)).0 model),
            (first, rest, shape, (check_each_iff 0 (first ∷ to_list rest)).0 (cc)),
          )

      from : IsChat payload → validate_chat_payload payload ≡ ok tt
      from (model, (first, rest, listed, each)) =
          rw
            ((check_model_iff (at "model" payload)).1
              ((filled_text_iff (at "model" payload)).1 model))
            (rw listed ((check_each_iff 0 (first ∷ to_list rest)).1 each))
