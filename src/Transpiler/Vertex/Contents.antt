-- ===== src/Transpiler/Vertex/Contents.antt =====
-- src/transpiler/vertex.rs: where the messages of a request go.
use melis.Common.{
  ◌≡◌, inl, inr, refl, Bool, not, Option, none, some, List, [], ◌∷◌, ◌++◌, map, keep, append-nil,
  append_assoc, string_eq, ◌==◌, Bool-cases,
}
use melis.Json.{Numbers, Value, Fields, object, end, list, get, put, put_some, array_at}
use melis.Transpiler.Payload.{done}
use melis.Transpiler.Vertex.{
  role_of, text_part, content_item, split_messages, system_instruction, generation_config,
  unless_none, native_of, to_native,
}

module _ {n : Numbers} where
  abbrev pub is_system_role : Value n → Bool
  is_system_role msg = role_of msg == "system"

  -- The messages of the talk, and those of the system.
  abbrev pub talk_of : List (Value n) → List (Value n)
  talk_of messages = keep (λ m. not (is_system_role m)) messages

  abbrev pub system_of : List (Value n) → List (Value n)
  system_of messages = keep is_system_role messages

  split_messages_lem :
      (messages contents system_parts : List (Value n))
      → split_messages messages contents system_parts ≡ (
        contents ++ map content_item (talk_of messages),
        system_parts ++ map text_part (system_of messages),
      )
  unfolding split_messages
  split_messages_lem [] contents system_parts = simp append-nil
  split_messages_lem (m ∷ ms) contents system_parts = elim (Bool-cases (is_system_role m)) [
    | inl e ↦
        rw e (
          rw (split_messages_lem ms contents (system_parts ++ text_part m ∷ []))
            (simp append_assoc))
    | inr e ↦ rw e (
        rw (split_messages_lem ms (contents ++ content_item m ∷ []) system_parts)
          (simp append_assoc))
  ]

  native_parts :
      (config system : Option (Value n)) (contents : Value n)
      → let native =
          put_some "generationConfig" config
            (put_some "systemInstruction" system (put "contents" contents end)) in
        (get "contents" native ≡ some contents)
        × (get "systemInstruction" native ≡ system)
        × (get "generationConfig" native ≡ config)
  native_parts none none contents = (refl, refl, refl)
  native_parts none (some s) contents = (refl, refl, refl)
  native_parts (some c) none contents = (refl, refl, refl)
  native_parts (some c) (some s) contents = (refl, refl, refl)

  -- A request with messages is translated. `contents` has one item for each message that is not the
  -- system's, in order, and `systemInstruction` the texts of the system's, in order, or is absent
  -- where there are none; `generationConfig` is absent where no parameter is given.
  pub to_native_contents :
      (request : Value n) (messages : List (Value n))
      → array_at "messages" request ≡ some messages
      → (native : Fields n) × (to_native request ≡ done (object native))
        × (get "contents" native ≡ some (list (map content_item (talk_of messages))))
        × (get "systemInstruction" native ≡ system_instruction (map text_part (system_of messages)))
        × (get "generationConfig" native ≡ unless_none (generation_config request))
  unfolding to_native
  to_native_contents request messages has_messages =
      let contents = map content_item (talk_of messages) in
      let system_parts = map text_part (system_of messages) in
      let parts =
        native_parts (unless_none (generation_config request)) (system_instruction system_parts)
          (list contents) in
      (
        native_of request (contents, system_parts),
        rw has_messages (rw (split_messages_lem messages [] []) refl),
        parts.0,
        parts.1,
        parts.2,
      )
