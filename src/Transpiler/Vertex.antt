-- ===== src/Transpiler/Vertex.antt =====
-- src/transpiler/vertex.rs: requests, responses and chunks of the Google Generative AI API.
pub mod Contents
use melis.Common.{
  ℕ, ◌+◌, String, Bool, true, false, Option, none, some, List, [], ◌∷◌, ◌++◌, and_then, map_option,
  unwrap_or, filter_map, string_eq, ◌==◌, if◌then◌else◌,
}
use melis.Json.{
  Numbers, Value, Fields, null, string, object, end, field, json, list, u64, put, put_some, at,
  str_at, u64_at, array_at,
}
use melis.Transpiler.Payload.{missing_field, Translated, done, failed, PayloadTranspiler, required}

abbrev pub map_role_to_vertex : String → String
map_role_to_vertex role =
    if role == "assistant" then "model" else if role == "user" then "user" else "user"

abbrev pub map_role_to_openai : String → String
map_role_to_openai role =
    if role == "model" then "assistant" else if role == "user" then "user" else "assistant"

abbrev pub map_finish_reason : String → String
map_finish_reason reason =
    if reason == "STOP"
    then "stop"
    else if reason == "MAX_TOKENS"
    then "length"
    else if reason == "SAFETY"
    then "content_filter"
    else if reason == "RECITATION"
    then "content_filter"
    else "stop"

abbrev pub first_text : List String → Option String
first_text [] = none
first_text (s ∷ ss) = some s

module _ {n : Numbers} where
  abbrev pub role_of : Value n → String
  role_of msg = unwrap_or (str_at "role" msg) "user"

  -- `json!({ "text": content })`
  abbrev pub text_part : Value n → Value n
  text_part msg = json (("text", string (unwrap_or (str_at "content" msg) "")) ∷ [])

  abbrev pub content_item : Value n → Value n
  content_item msg = json (
      ("role", string (map_role_to_vertex (role_of msg)))
      ∷ ("parts", list (text_part msg ∷ []))
      ∷ [])

  -- The loop over the messages, with its two vectors.
  unfoldable pub split_messages :
      List (Value n) → (contents system_parts : List (Value n)) → List (Value n) × List (Value n)
  split_messages [] contents system_parts = (contents, system_parts)
  split_messages (msg ∷ messages) contents system_parts =
      let is_system = role_of msg == "system" in
      split_messages messages (if is_system then contents else contents ++ content_item msg ∷ [])
        (if is_system then system_parts ++ text_part msg ∷ [] else system_parts)

  abbrev pub system_instruction : List (Value n) → Option (Value n)
  system_instruction [] = none
  system_instruction (p ∷ ps) = some (json (("parts", list (p ∷ ps)) ∷ []))

  abbrev pub generation_config : Value n → Fields n
  generation_config request = put_some "topP" (at "top_p" request) (
      put_some "stopSequences" (at "stop" request) (
        put_some "maxOutputTokens" (at "max_tokens" request)
          (put_some "temperature" (at "temperature" request) end)))

  abbrev pub unless_none : Fields n → Option (Value n)
  unless_none end = none
  unless_none (field k v rest) = some (object (field k v rest))

  abbrev pub native_of : Value n → List (Value n) × List (Value n) → Fields n
  native_of request (contents, system_parts) =
      put_some "generationConfig" (unless_none (generation_config request)) (
        put_some "systemInstruction" (system_instruction system_parts)
          (put "contents" (list contents) end))

  unfoldable pub to_native : Value n → Translated n
  to_native request =
      required (array_at "messages" request) (missing_field "messages")
        (λ messages. done (object (native_of request (split_messages messages [] []))))

  -- The first_text text among the parts.
  abbrev pub candidate_text : Value n → Option String
  candidate_text candidate =
      and_then (and_then (at "content" candidate) (array_at "parts"))
        (λ parts. first_text (filter_map (str_at "text") parts))

  abbrev pub candidate_role : Value n → Option String
  candidate_role candidate = and_then (at "content" candidate) (str_at "role")

  -- `null` where there is no reason.
  abbrev pub finish_of : Option String → Value n
  finish_of none = null
  finish_of (some reason) = string (map_finish_reason reason)

  abbrev pub choice_of : ℕ → Value n → Value n
  choice_of index candidate = json (
      ("index", u64 index)
      ∷ (
        "message",
        json (
            ("role", string (map_role_to_openai (unwrap_or (candidate_role candidate) "model")))
            ∷ ("content", string (unwrap_or (candidate_text candidate) ""))
            ∷ []),
      )
      ∷ ("finish_reason", finish_of (str_at "finishReason" candidate))
      ∷ [])

  abbrev pub delta : Value n → Value n
  delta candidate = object (
      put_some "content" (map_option string (candidate_text candidate)) (
        put_some "role"
          (map_option (λ role. string (map_role_to_openai role)) (candidate_role candidate)) end))

  abbrev pub chunk_choice : ℕ → Value n → Value n
  chunk_choice index candidate = json (
      ("index", u64 index)
      ∷ ("delta", delta candidate)
      ∷ ("finish_reason", finish_of (str_at "finishReason" candidate))
      ∷ [])

  -- `iter().enumerate()` with the body of the loop.
  unfoldable pub enumerated : (ℕ → Value n → Value n) → ℕ → List (Value n) → List (Value n)
  enumerated f index [] = []
  enumerated f index (c ∷ cs) = f index c ∷ enumerated f (index + 1) cs

  abbrev pub vertex_usage : Value n → Value n
  vertex_usage meta = json (
      ("prompt_tokens", u64 (unwrap_or (u64_at "promptTokenCount" meta) 0))
      ∷ ("completion_tokens", u64 (unwrap_or (u64_at "candidatesTokenCount" meta) 0))
      ∷ ("total_tokens", u64 (unwrap_or (u64_at "totalTokenCount" meta) 0))
      ∷ [])

  -- The members up to `choices`, of a response and of a chunk.
  abbrev pub completion : (what : String) → Value n → List (Value n) → Fields n
  completion what response choices = put "choices" (list choices) (
      put "model" (string (unwrap_or (str_at "modelVersion" response) "gemini-pro")) (
        put "created" (u64 0)
          (put "object" (string what) (put "id" (string "chatcmpl-vertex") end))))

  unfoldable pub from_native : Value n → Translated n
  from_native response =
      required (array_at "candidates" response) (missing_field "candidates") (λ candidates. done (
        object (
          put_some "usage" (map_option vertex_usage (at "usageMetadata" response))
            (completion "chat.completion" response (enumerated choice_of 0 candidates)))))

  unfoldable pub translate_chunk : Value n → Translated n
  translate_chunk chunk =
      required (array_at "candidates" chunk) (missing_field "candidates") (λ candidates.
        done (
          object (completion "chat.completion.chunk" chunk (enumerated chunk_choice 0 candidates))))

abbrev pub vertex_transpiler : {n : Numbers} → PayloadTranspiler n
vertex_transpiler = record {
  to_native = to_native;
  from_native = from_native;
  translate_chunk = translate_chunk;
}
