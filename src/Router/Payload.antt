-- ===== src/Router/Payload.antt =====
-- src/router.rs: the checks of a chat request, and whether it is to be streamed.
pub mod Valid
use Prim.Native.String.{◌++◌}
use melis.Common.{
  ℕ, suc, ◌+◌, String, to_string, Bool, true, false, not, ◌||◌, Option, none, some, List, [], ◌∷◌,
  unwrap_or, and_then, map_option, contains_text, string_eq, ◌==◌, if◌then◌else◌,
}
use melis.Json.{Numbers, Value, Items, string, array, nil, cons, at, to_list, as_bool}
use melis.Error.{GatewayError, bad_request, Result, ok, err, ◌>>=◌}

-- `Some(Value::String(s)) if !s.is_empty()`
abbrev pub filled_text : {n : Numbers} → Option (Value n) → Bool
filled_text (some (string s)) = not (s == "")
filled_text _ = false

abbrev pub indexed : ℕ → String → GatewayError
indexed i field = bad_request (
    "Message at index "
    ++ (to_string i ++ (" must have a non-empty '" ++ (field ++ "' string field."))))

module _ {n : Numbers} where
  abbrev pub check_model : Option (Value n) → Result (Unit {0})
  check_model (some (string s)) =
      if not (s == "") then ok tt else err (bad_request "Field 'model' must not be empty.")
  check_model _ = err (bad_request "Field 'model' is required and must be a non-empty string.")

  abbrev pub check_messages : Option (Value n) → Result (List (Value n))
  check_messages (some (array nil)) =
      err (bad_request "Field 'messages' must contain at least one message.")
  check_messages (some (array (cons v vs))) = ok (v ∷ to_list vs)
  check_messages _ = err (bad_request "Field 'messages' is required and must be a non-empty array.")

  -- The loop, from index `i`.
  unfoldable pub check_each : ℕ → List (Value n) → Result (Unit {0})
  check_each i [] = ok tt
  check_each i (msg ∷ msgs) =
      let rest = check_each (i + 1) msgs in
      if not (filled_text (at "role" msg))
      then err (indexed i "role")
      else if not (filled_text (at "content" msg))
      then err (indexed i "content")
      else rest

  unfoldable pub validate_chat_payload : Value n → Result (Unit {0})
  unfolding check_each
  validate_chat_payload payload = do
    _ ← check_model (at "model" payload)
    messages ← check_messages (at "messages" payload)
    check_each 0 messages

  -- `accept` is the header's text, if there is one.
  unfoldable pub is_streaming_request : (accept : Option String) → Value n → Bool
  unfolding contains_text
  is_streaming_request accept payload =
      unwrap_or (map_option (contains_text "text/event-stream") accept) false
      || unwrap_or (and_then (at "stream" payload) as_bool) false
