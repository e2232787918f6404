-- ===== src/Transpiler/Anthropic/Requests.antt =====
-- src/transpiler/anthropic.rs: what a request in Anthropic's format holds, and when there is one.
use melis.Common.{
  ℕ, ◌≡◌, ◌⊎◌, inl, inr, refl, String, true, false, not, Option, none, some, List, [], ◌∷◌, map,
  keep, length, All, any, and_then, unwrap_or, string_eq, ◌==◌, Bool-cases, arith,
}
use melis.Json.{
  Numbers, Value, Fields, Serde, null, array, object, end, keys, to_list, get, put, put_some, list,
  u64, at, as_array, str_at, array_at,
}
use melis.Json.Laws.{IsMap, get-put, put-IsMap, All-keys-put}
use melis.Transpiler.Payload.{done, failed, TranspilerError, missing_field}
use melis.Transpiler.Anthropic.{max_tokens_of, native_fields, tool_fields, to_native}
use melis.Transpiler.Anthropic.Messages.{
  is_system, convert_message, convert_as, convert_messages_to_native, assistant_message,
}

abbrev pub native_keys : List String
native_keys =
    "model" ∷ "system" ∷ "messages" ∷ "max_tokens" ∷ "temperature" ∷ "stop_sequences" ∷ "stream"
    ∷ "tools" ∷ "tool_choice" ∷ []

abbrev pub IsNativeKey : String → Type 0
IsNativeKey k = any (λ j. j == k) native_keys ≡ true

module _ {n : Numbers} where
  abbrev role_of : Value n → String
  role_of msg = unwrap_or (str_at "role" msg) "user"

  -- Anthropic has two roles.
  abbrev pub HasNativeRole : Value n → Type 0
  HasNativeRole msg = (str_at "role" msg ≡ some "user") ⊎ (str_at "role" msg ≡ some "assistant")

module _ {n : Numbers} (serde : Serde n) where
  assistant_message-HasNativeRole :
      (msg : Value n) (calls : Option (List (Value n)))
      → HasNativeRole (assistant_message serde msg calls)
  assistant_message-HasNativeRole msg none = inr refl
  assistant_message-HasNativeRole msg (some []) = inr refl
  assistant_message-HasNativeRole msg (some (c ∷ cs)) = inr refl

  convert_as-HasNativeRole :
      (role : String) (msg : Value n) → HasNativeRole (convert_as serde role msg)
  convert_as-HasNativeRole role msg = elim (Bool-cases (role == "tool")) [
    | inl e ↦ rw e (inl refl)
    | inr e ↦ rw e elim (Bool-cases (role == "assistant")) [
      | inl f ↦ rw f (assistant_message-HasNativeRole msg (array_at "tool_calls" msg))
      | inr f ↦ rw f (inl refl)
    ]
  ]

  All-map_convert : (msgs : List (Value n)) → All HasNativeRole (map (convert_message serde) msgs)
  All-map_convert [] = tt
  All-map_convert (m ∷ ms) = (convert_as-HasNativeRole (role_of m) m, All-map_convert ms)

  talk-length : (msgs : List (Value n)) → length (map (convert_message serde) msgs) ≡ length msgs
  talk-length [] = refl
  talk-length (m ∷ ms) = omega (arith, talk-length ms)

  -- What the request in Anthropic's format is to hold.
  pub record IsNative (messages : List (Value n)) (model : Value n) (native : Fields n)
      : Type 0 where
    pub one_each : IsMap native
    pub known : All IsNativeKey (keys native)
    pub same_model : get "model" native ≡ some model
    pub sized : (k : ℕ) × (get "max_tokens" native ≡ some (u64 k))
    pub talk : List (Value n)
    pub in_messages : get "messages" native ≡ some (list talk)
    pub one_per_message : length talk ≡ length (keep (λ m. not (is_system m)) messages)
    pub two_roles : All HasNativeRole talk

  -- A member other than the required ones may be put in.
  put-IsNative :
      (key : String) (value : Value n) {messages : List (Value n)} {model : Value n}
      {native : Fields n}
      → IsNativeKey key
      → (key == "model") ≡ false
      → (key == "max_tokens") ≡ false
      → (key == "messages") ≡ false
      → IsNative messages model native
      → IsNative messages model (put key value native)
  put-IsNative key value {native} m a b c h = record {
    one_each = put-IsMap key value native h.one_each;
    known = All-keys-put IsNativeKey key value native m h.known;
    same_model = rw (get-put key "model" value native, a) h.same_model;
    sized = (h.sized.0, rw (get-put key "max_tokens" value native, b) h.sized.1);
    talk = h.talk;
    in_messages = rw (get-put key "messages" value native, c) h.in_messages;
    one_per_message = h.one_per_message;
    two_roles = h.two_roles;
  }

  put_some-IsNative :
      (key : String) (value : Option (Value n)) {messages : List (Value n)} {model : Value n}
      {native : Fields n}
      → IsNativeKey key
      → (key == "model") ≡ false
      → (key == "max_tokens") ≡ false
      → (key == "messages") ≡ false
      → IsNative messages model native
      → IsNative messages model (put_some key value native)
  put_some-IsNative key none m a b c h = h
  put_some-IsNative key (some v) m a b c h = put-IsNative key v m a b c h

  tool_fields-IsNative :
      (obj : Fields n) (tools : Option (List (Value n))) {messages : List (Value n)}
      {model : Value n} {native : Fields n}
      → IsNative messages model native
      → IsNative messages model (tool_fields obj tools native)
  tool_fields-IsNative obj none h = h
  tool_fields-IsNative obj (some []) h = h
  tool_fields-IsNative obj (some (t ∷ ts)) h =
      put_some-IsNative "tool_choice" _ refl refl refl refl
        (put-IsNative "tools" _ refl refl refl refl h)

  -- The members that are always there.
  required_fields-IsNative :
      (obj : Fields n) (system : Option (Value n)) (messages : List (Value n)) (model : Value n)
      → IsNative messages model (
          put "max_tokens" (u64 (max_tokens_of obj)) (
            put "messages"
              (list (convert_messages_to_native serde messages))
              (put_some "system" system (put "model" model end))))
  unfolding convert_messages_to_native
  required_fields-IsNative obj none messages model = record {
    one_each = (refl, (refl, (refl, tt)));
    known = (refl, (refl, (refl, tt)));
    same_model = refl;
    sized = (max_tokens_of obj, refl);
    talk = convert_messages_to_native serde messages;
    in_messages = refl;
    one_per_message = talk-length (keep (λ m. not (is_system m)) messages);
    two_roles = All-map_convert (keep (λ m. not (is_system m)) messages);
  }
  required_fields-IsNative obj (some system) messages model = record {
    one_each = (refl, (refl, (refl, (refl, tt))));
    known = (refl, (refl, (refl, (refl, tt))));
    same_model = refl;
    sized = (max_tokens_of obj, refl);
    talk = convert_messages_to_native serde messages;
    in_messages = refl;
    one_per_message = talk-length (keep (λ m. not (is_system m)) messages);
    two_roles = All-map_convert (keep (λ m. not (is_system m)) messages);
  }

  native_fields-IsNative :
      (obj : Fields n) (messages : List (Value n)) (model : Value n)
      → IsNative messages model (native_fields serde obj messages model)
  native_fields-IsNative obj messages model = tool_fields-IsNative obj _ (
      put_some-IsNative "stream" _ refl refl refl refl (
        put_some-IsNative "stop_sequences" _ refl refl refl refl (
          put_some-IsNative "temperature" _ refl refl refl refl
            (required_fields-IsNative obj _ messages model))))

  abbrev pub IsTranslated :
      (request : Value n) → (messages : List (Value n)) → (model : Value n) → Type 0
  IsTranslated request messages model =
      (native : Fields n) × (to_native serde request ≡ done (object native))
      × IsNative messages model native

  abbrev pub IsRefused : Value n → Type 0
  IsRefused request = (e : TranspilerError) × (to_native serde request ≡ failed e)

  to_native_object :
      (obj : Fields n) (messages model : Option (Value n))
      → get "messages" obj ≡ messages
      → get "model" obj ≡ model
      → (IsRefused (object obj) × ((and_then messages as_array ≡ none) ⊎ (model ≡ none)))
        ⊎ ((ms : List (Value n)) × (m : Value n) × (and_then messages as_array ≡ some ms)
            × (model ≡ some m)
            × IsTranslated (object obj) ms m)
  unfolding to_native
  to_native_object obj none model p q = inl ((missing_field "messages", rw p refl), inl refl)
  to_native_object obj (some (array ms)) none p q =
      inl ((missing_field "model", rw p (rw q refl)), inr refl)
  to_native_object obj (some (array ms)) (some m) p q = inr (
    to_list ms,
    m,
    refl,
    refl,
    (
      native_fields serde obj (to_list ms) m,
      rw p (rw q refl),
      native_fields-IsNative obj (to_list ms) m,
    ),
  )
  to_native_object obj (some _) model p q = inl ((missing_field "messages", rw p refl), inl refl)

  -- A request is refused exactly when it has no array of messages or no model, for instance because
  -- it is no object. Any other is translated to an object with each key once and none but those of
  -- Anthropic's interface: the model as it was given, a `max_tokens`, and one message for each that
  -- is not the system's, each of them the user's or the assistant's.
  pub to_native_total :
      (request : Value n)
      → (IsRefused request × ((array_at "messages" request ≡ none) ⊎ (at "model" request ≡ none)))
        ⊎ ((messages : List (Value n)) × (model : Value n) × (array_at "messages" request
              ≡ some messages)
            × (at "model" request ≡ some model)
            × IsTranslated request messages model)
  unfolding to_native
  to_native_total (object obj) =
      to_native_object obj (get "messages" obj) (get "model" obj) refl refl
  to_native_total null = inl ((_, refl), inl refl)
  to_native_total _ = inl ((_, refl), inl refl)
