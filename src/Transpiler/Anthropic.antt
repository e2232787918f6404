-- ===== src/Transpiler/Anthropic.antt =====
-- src/transpiler/anthropic.rs: requests, responses and chunks of the Anthropic Messages API.
pub mod Messages
pub mod Requests
pub mod Calls
use melis.Common.{
  ℕ, ◌+◌, ◌%◌, ◌^◌, String, Bool, true, false, not, ◌&&◌, Option, none, some, List, [], ◌∷◌,
  and_then, map_option, unwrap_or, filter_map, keep, map, join_by, string_eq, ◌==◌, if◌then◌else◌,
}
use melis.Json.{
  Numbers, Value, Fields, Serde, null, number, string, object, end, json, list, u64, get, put,
  put_some, at, as_array, as_object, as_str, as_u64, str_at, u64_at,
}
use melis.Transpiler.Payload.{
  TranspilerError, missing_field, invalid_field_value, Translated, done, failed, PayloadTranspiler,
  required,
}
use Messages.{
  is_text, extract_system_message, convert_messages_to_native, convert_tools_to_native,
  convert_tool_choice_to_native, convert_stop_sequences, map_stop_reason,
}

abbrev pub default_max_tokens : ℕ
default_max_tokens = 4096

abbrev pub not_an_object : String → TranspilerError
not_an_object what = invalid_field_value what "Expected JSON object"

module _ {n : Numbers} where
  abbrev pub tool_fields : Fields n → Option (List (Value n)) → Fields n → Fields n
  tool_fields obj none native = native
  tool_fields obj (some []) native = native
  tool_fields obj (some (t ∷ ts)) native =
      put_some "tool_choice" (map_option convert_tool_choice_to_native (get "tool_choice" obj))
        (put "tools" (list (convert_tools_to_native (t ∷ ts))) native)

  -- `obj.get(key).and_then(|v| v.as_…())`
  abbrev pub max_tokens_of : Fields n → ℕ
  max_tokens_of obj = unwrap_or (and_then (get "max_tokens" obj) as_u64) default_max_tokens

  abbrev pub is_tool_use : Value n → Bool
  is_tool_use block = is_text "tool_use" (str_at "type" block)

  abbrev pub unless_empty : List (Value n) → Option (List (Value n))
  unless_empty [] = none
  unless_empty (v ∷ vs) = some (v ∷ vs)

  abbrev pub block_text : Value n → Option String
  block_text block = if is_text "text" (str_at "type" block) then str_at "text" block else none

  abbrev pub content_text : Option (List (Value n)) → String
  content_text none = ""
  content_text (some blocks) = join_by "" (filter_map block_text blocks)

  abbrev pub no_usage : Value n
  no_usage = json (("input_tokens", u64 0) ∷ ("output_tokens", u64 0) ∷ [])

  -- The sum is that of two `u64`, which wraps.
  abbrev pub usage_of : (input_tokens output_tokens : ℕ) → Value n
  usage_of input_tokens output_tokens = json (
      ("prompt_tokens", u64 input_tokens)
      ∷ ("completion_tokens", u64 output_tokens)
      ∷ ("total_tokens", u64 ((input_tokens + output_tokens) % 2 ^ 64))
      ∷ [])

  abbrev pub response_message : String → Option (List (Value n)) → Value n
  response_message text calls = object (
      put_some "tool_calls" (map_option list calls)
        (put "content" (string text) (put "role" (string "assistant") end)))

  abbrev pub chunk_of : (model : String) (delta finish_reason : Value n) → Value n
  chunk_of model delta finish_reason = json (
      ("id", string "chatcmpl-stream")
      ∷ ("object", string "chat.completion.chunk")
      ∷ ("created", u64 0)
      ∷ ("model", string model)
      ∷ (
        "choices",
        list (
            json (("index", u64 0) ∷ ("delta", delta) ∷ ("finish_reason", finish_reason) ∷ [])
            ∷ []),
      )
      ∷ [])

  -- `obj.get(outer).and_then(|v| v.get(inner)).and_then(|v| v.as_str())`
  abbrev pub nested_str : (outer inner : String) → Fields n → Option String
  nested_str outer inner obj = and_then (get outer obj) (str_at inner)

  abbrev pub chunk_as : String → Fields n → Value n
  chunk_as chunk_type obj =
      if chunk_type == "content_block_delta"
      then chunk_of ""
          (json (("content", string (unwrap_or (nested_str "delta" "text" obj) "")) ∷ [])) null
      else if chunk_type == "message_start"
      then chunk_of (unwrap_or (nested_str "message" "model" obj) "")
          (json (("role", string "assistant") ∷ [])) null
      else if chunk_type == "message_delta"
      then chunk_of "" (object end)
          (string (map_stop_reason (nested_str "delta" "stop_reason" obj)))
      else if chunk_type == "message_stop"
      then chunk_of "" (object end) (string "stop")
      else chunk_of "" (object end) null

  unfoldable pub translate_chunk : Value n → Translated n
  translate_chunk chunk =
      required (as_object chunk) (not_an_object "chunk")
        (λ obj. done (chunk_as (unwrap_or (and_then (get "type" obj) as_str) "") obj))

module _ {n : Numbers} (serde : Serde n) where
  -- The native request, member by member.
  abbrev pub native_fields : Fields n → (messages : List (Value n)) → (model : Value n) → Fields n
  native_fields obj messages model =
      let named = put "model" model end in
      let system = put_some "system" (map_option string (extract_system_message messages)) named in
      let talk = put "messages" (list (convert_messages_to_native serde messages)) system in
      let sized = put "max_tokens" (u64 (max_tokens_of obj)) talk in
      let warm = put_some "temperature" (get "temperature" obj) sized in
      let stopped =
        put_some "stop_sequences"
          (map_option list (and_then (get "stop" obj) convert_stop_sequences)) warm in
      let streamed = put_some "stream" (get "stream" obj) stopped in
      tool_fields obj (and_then (get "tools" obj) as_array) streamed

  unfoldable pub to_native : Value n → Translated n
  to_native request = required (as_object request) (not_an_object "request") (λ obj.
      required (and_then (get "messages" obj) as_array) (missing_field "messages") (λ messages.
        required (get "model" obj) (missing_field "model")
          (λ model. done (object (native_fields obj messages model)))))

  abbrev pub tool_call : Value n → Value n
  tool_call block = json (
      ("id", unwrap_or (at "id" block) null)
      ∷ ("type", string "function")
      ∷ (
        "function",
        json (
            ("name", unwrap_or (at "name" block) null)
            ∷ ("arguments", string (serde.print (unwrap_or (at "input" block) (object end))))
            ∷ []),
      )
      ∷ [])

  unfoldable pub extract_tool_calls : List (Value n) → Option (List (Value n))
  extract_tool_calls content_blocks = unless_empty (map tool_call (keep is_tool_use content_blocks))

  unfoldable pub from_native : Value n → Translated n
  from_native response = required (as_object response) (not_an_object "response") (λ obj.
      let blocks = and_then (get "content" obj) as_array in
      let finish_reason = map_stop_reason (and_then (get "stop_reason" obj) as_str) in
      let usage = unwrap_or (get "usage" obj) no_usage in
      done (
        json (
          ("id", unwrap_or (get "id" obj) (string "chatcmpl-unknown"))
          ∷ ("object", string "chat.completion")
          ∷ ("created", u64 0)
          ∷ ("model", unwrap_or (get "model" obj) (string "unknown"))
          ∷ (
            "choices",
            list (
                json (
                  ("index", u64 0)
                  ∷ (
                    "message",
                    response_message (content_text blocks) (and_then blocks extract_tool_calls),
                  )
                  ∷ ("finish_reason", string finish_reason)
                  ∷ [])
                ∷ []),
          )
          ∷ (
            "usage",
            usage_of (unwrap_or (u64_at "input_tokens" usage) 0)
                (unwrap_or (u64_at "output_tokens" usage) 0),
          )
          ∷ [])))

  abbrev pub anthropic_transpiler : PayloadTranspiler n
  anthropic_transpiler = record {
    to_native = to_native;
    from_native = from_native;
    translate_chunk = translate_chunk;
  }
