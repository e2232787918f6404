-- ===== src/Transpiler/Anthropic/Messages.antt =====
-- src/transpiler/anthropic.rs: messages, tools and stop sequences.
use melis.Common.{
  String, Bool, false, not, Option, none, some, List, [], ◌∷◌, ◌++◌, map, keep, and_then,
  map_option, unwrap_or, filter_map, join_by, string_eq, ◌==◌, if◌then◌else◌,
}
use melis.Json.{
  Numbers, Value, Serde, null, string, array, object, end, json, list, to_list, at, str_at,
  array_at,
}

abbrev pub is_text : String → Option String → Bool
is_text s none = false
is_text s (some t) = t == s

abbrev pub joined_parts : List String → Option String
joined_parts [] = none
joined_parts (s ∷ ss) = some (join_by "\n" (s ∷ ss))

-- `match role { "assistant" => "assistant", _ => "user" }`
abbrev pub mapped_role : String → String
mapped_role role = if role == "assistant" then "assistant" else "user"

module _ {n : Numbers} where
  -- `msg.get("role").and_then(|r| r.as_str()) == Some("system")`
  abbrev pub is_system : Value n → Bool
  is_system msg = is_text "system" (str_at "role" msg)

  abbrev pub system_part : Value n → Option String
  system_part msg = if is_system msg then str_at "content" msg else none

  unfoldable pub extract_system_message : List (Value n) → Option String
  extract_system_message messages = joined_parts (filter_map system_part messages)

  abbrev pub content_of : Value n → Value n
  content_of msg = unwrap_or (at "content" msg) null

  abbrev pub tool_result : Value n → Value n
  tool_result msg = json (
      ("role", string "user")
      ∷ (
        "content",
        list (
            json (
              ("type", string "tool_result")
              ∷ ("tool_use_id", string (unwrap_or (str_at "tool_call_id" msg) ""))
              ∷ ("content", content_of msg)
              ∷ [])
            ∷ []),
      )
      ∷ [])

  abbrev pub plain_message : String → Value n → Value n
  plain_message role msg =
      json (("role", string (mapped_role role)) ∷ ("content", content_of msg) ∷ [])

  abbrev pub text_block : Option String → List (Value n)
  text_block none = []
  text_block (some text) =
      if text == "" then [] else json (("type", string "text") ∷ ("text", string text) ∷ []) ∷ []

  unfoldable pub convert_tools_to_native : List (Value n) → List (Value n)
  convert_tools_to_native tools =
      filter_map
        (λ t.
          map_option
            (λ function. json (
              ("name", unwrap_or (at "name" function) null)
              ∷ ("description", unwrap_or (at "description" function) (string ""))
              ∷ (
                "input_schema",
                unwrap_or (at "parameters" function)
                    (json (("type", string "object") ∷ ("properties", object end) ∷ [])),
              )
              ∷ []))
            (at "function" t))
        tools

  abbrev pub auto_choice : Value n
  auto_choice = json (("type", string "auto") ∷ [])

  abbrev pub named_choice : Option (Value n) → Value n
  named_choice none = auto_choice
  named_choice (some name) = json (("type", string "tool") ∷ ("name", name) ∷ [])

  -- A text is mapped to "auto" whether it is "none" or not.
  unfoldable pub convert_tool_choice_to_native : Value n → Value n
  convert_tool_choice_to_native (object fields) =
      named_choice (and_then (at "function" (object fields)) (at "name"))
  convert_tool_choice_to_native _ = auto_choice

  unfoldable pub convert_stop_sequences : Value n → Option (List (Value n))
  convert_stop_sequences (string s) = some (string s ∷ [])
  convert_stop_sequences (array vs) = some (to_list vs)
  convert_stop_sequences _ = none

module _ {n : Numbers} (serde : Serde n) where
  abbrev pub input_of : Value n → Value n
  input_of function = unwrap_or (and_then (str_at "arguments" function) serde.parse) (object end)

  abbrev pub function_of : Value n → Value n
  function_of tc = unwrap_or (at "function" tc) null

  -- One of the `tool_calls` as a `tool_use` block.
  abbrev pub tool_use : Value n → Value n
  tool_use tc = json (
      ("type", string "tool_use")
      ∷ ("id", string (unwrap_or (str_at "id" tc) ""))
      ∷ ("name", string (unwrap_or (str_at "name" (function_of tc)) ""))
      ∷ ("input", input_of (function_of tc))
      ∷ [])

  -- The blocks of an assistant's message that has calls.
  abbrev pub assistant_message : Value n → Option (List (Value n)) → Value n
  assistant_message msg none = plain_message "assistant" msg
  assistant_message msg (some []) = plain_message "assistant" msg
  assistant_message msg (some (c ∷ cs)) = json (
      ("role", string "assistant")
      ∷ ("content", list (text_block (str_at "content" msg) ++ map tool_use (c ∷ cs)))
      ∷ [])

  abbrev pub convert_as : String → Value n → Value n
  convert_as role msg =
      if role == "tool"
      then tool_result msg
      else if role == "assistant"
      then assistant_message msg (array_at "tool_calls" msg)
      else plain_message role msg

  abbrev pub convert_message : Value n → Value n
  convert_message msg = convert_as (unwrap_or (str_at "role" msg) "user") msg

  unfoldable pub convert_messages_to_native : List (Value n) → List (Value n)
  convert_messages_to_native messages =
      map convert_message (keep (λ msg. not (is_system msg)) messages)

-- `map_stop_reason`
unfoldable pub map_stop_reason : Option String → String
map_stop_reason none = "stop"
map_stop_reason (some reason) =
    if reason == "end_turn"
    then "stop"
    else if reason == "max_tokens"
    then "length"
    else if reason == "stop_sequence"
    then "stop"
    else if reason == "tool_use"
    then "tool_calls"
    else "stop"
