-- ===== src/Transpiler/Tests.antt =====
-- Translations of concrete requests, and the theorems on them at inputs that meet their hypotheses.
use melis.Common.{◌≡◌, refl, ◌⊎◌, String, none, some, List, [], ◌∷◌, string_eq, ◌==◌, if◌then◌else◌}
use melis.Json.{
  u64_numbers, Value, Fields, Serde, string, object, end, json, list, u64, get, at, array_at,
}
use melis.Transpiler.{get_transpiler}
use melis.Transpiler.Payload.{done, failed, TranspilerError}
use melis.Transpiler.Anthropic
use melis.Transpiler.Vertex
use melis.Transpiler.Anthropic.{extract_tool_calls}
use melis.Transpiler.Anthropic.Messages.{convert_message, extract_system_message}
use melis.Transpiler.Anthropic.Requests.{IsRefused, IsTranslated, to_native_total}
use melis.Transpiler.Anthropic.Calls.{Call, open_ai_call, extract_tool_calls-convert_message}
use melis.Transpiler.VertexAnthropic
use melis.Transpiler.VertexAnthropic.{vertex_anthropic_version}
use melis.Transpiler.VertexAnthropic.Body.{to_native_body}

abbrev V : Type 0
V = Value u64_numbers

-- A parser that knows the empty object only.
abbrev serde : Serde u64_numbers
serde = record { parse = λ s. if s == "{}" then some (object end) else none; print = λ v. "{}" }

abbrev message : (role content : String) → V
message role content = json (("role", string role) ∷ ("content", string content) ∷ [])

abbrev request : V
request = json (
    ("model", string "claude")
    ∷ ("messages", list (message "system" "Be brief." ∷ message "user" "Hi" ∷ []))
    ∷ ("stop", string "END")
    ∷ ("seed", u64 1)
    ∷ [])

transpilers : Unit {0}
unfolding Anthropic.to_native Anthropic.from_native Anthropic.translate_chunk Vertex.to_native
    Vertex.from_native VertexAnthropic.to_native
transpilers = tt

anthropic_test :
    (get_transpiler serde "anthropic").to_native request
    ≡ done (
        json (
          ("model", string "claude")
          ∷ ("system", string "Be brief.")
          ∷ ("messages", list (message "user" "Hi" ∷ []))
          ∷ ("max_tokens", u64 4096)
          ∷ ("stop_sequences", list (string "END" ∷ []))
          ∷ []))
unfolding transpilers Anthropic.Messages.convert_messages_to_native extract_system_message
    Anthropic.Messages.convert_stop_sequences
anthropic_test = refl

vertex_test :
    (get_transpiler serde "google_vertex_ai").to_native request
    ≡ done (
        json (
          (
            "contents",
            list (
                json (
                  ("role", string "user")
                  ∷ ("parts", list (json (("text", string "Hi") ∷ []) ∷ []))
                  ∷ [])
                ∷ []),
          )
          ∷ (
            "systemInstruction",
            json (("parts", list (json (("text", string "Be brief.") ∷ []) ∷ [])) ∷ []),
          )
          ∷ ("generationConfig", json (("stopSequences", string "END") ∷ []))
          ∷ []))
unfolding transpilers Vertex.split_messages
vertex_test = refl

-- A total is the sum of the two counts.
response_test :
    (get_transpiler serde "anthropic").from_native
      (json (("usage", json (("input_tokens", u64 7) ∷ ("output_tokens", u64 5) ∷ [])) ∷ []))
    ≡ done (
        json (
          ("id", string "chatcmpl-unknown")
          ∷ ("object", string "chat.completion")
          ∷ ("created", u64 0)
          ∷ ("model", string "unknown")
          ∷ (
            "choices",
            list (
                json (
                  ("index", u64 0)
                  ∷ ("message", message "assistant" "")
                  ∷ ("finish_reason", string "stop")
                  ∷ [])
                ∷ []),
          )
          ∷ (
            "usage",
            json (
                ("prompt_tokens", u64 7)
                ∷ ("completion_tokens", u64 5)
                ∷ ("total_tokens", u64 12)
                ∷ []),
          )
          ∷ []))
unfolding transpilers Anthropic.Messages.map_stop_reason
response_test = refl

to_native_total_example :
    (IsRefused serde request × ((array_at "messages" request ≡ none) ⊎ (at "model" request ≡ none)))
    ⊎ ((messages : List V) × (model : V) × (array_at "messages" request ≡ some messages)
        × (at "model" request ≡ some model)
        × IsTranslated serde request messages model)
to_native_total_example = to_native_total serde request

abbrev call : Call u64_numbers
call = record { id = "c1"; name = "write_file"; input = object end }

abbrev calling : V
calling = json (
    ("role", string "assistant")
    ∷ ("content", string "One moment.")
    ∷ ("tool_calls", list (open_ai_call serde call ∷ []))
    ∷ [])

extract_tool_calls-convert_message_example :
    (blocks : List V) × (array_at "content" (convert_message serde calling) ≡ some blocks)
    × (extract_tool_calls serde blocks ≡ some (open_ai_call serde call ∷ []))
extract_tool_calls-convert_message_example =
    extract_tool_calls-convert_message serde calling call [] refl refl (refl, tt)

to_native_body_example :
    ((e : TranspilerError) × (Anthropic.to_native serde request ≡ failed e)
      × (VertexAnthropic.to_native serde request ≡ failed e))
    ⊎ ((native : Fields u64_numbers) × (body : Fields u64_numbers) × (Anthropic.to_native serde
            request
          ≡ done (object native))
        × (VertexAnthropic.to_native serde request ≡ done (object body))
        × (get "model" body ≡ none))
to_native_body_example = to_native_body serde request "model"
