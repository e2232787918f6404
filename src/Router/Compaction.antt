-- ===== src/Router/Compaction.antt =====
-- src/router.rs: the compaction of the messages of a chat request, on the way through the handler.
pub mod Messages
use melis.Common.{
  String, Bool, Option, none, some, List, [], ◌∷◌, map, filter_map, map_option, and_then, string_eq,
  ◌==◌, if◌then◌else◌,
}
use melis.Float.{F64}
use melis.Config.{CompactorConfig}
use melis.Json.{Numbers, Value, Fields, string, object, json, list, put, str_at, array_at}
use melis.Compactor
use melis.Compactor.{CompactMessage, CompactionResult}
use melis.Compactor.Semantic
use melis.Compactor.Text.{Unicode}

module _ {n : Numbers} where
  abbrev pub compact_message : Value n → Option CompactMessage
  compact_message m = and_then (str_at "role" m) (λ role.
      map_option (λ content. record { role = role; content = content }) (str_at "content" m))

  -- `json!({"role": m.role, "content": m.content})`
  abbrev pub message_value : CompactMessage → Value n
  message_value m = json (("role", string m.role) ∷ ("content", string m.content) ∷ [])

  -- `payload["messages"] = …`
  abbrev pub put_messages : List (Value n) → Value n → Value n
  put_messages messages (object fields) = object (put "messages" (list messages) fields)
  put_messages messages v = v

module _ (f : F64) (u : Unicode) where
  -- The compactor that the strategy names.
  abbrev pub run_compactor : CompactorConfig f → List CompactMessage → CompactionResult f u
  run_compactor config messages =
      if config.strategy == "semantic_guarded_trimming"
      then Semantic.compact f u messages config
      else Compactor.compact f u messages config

  module _ {n : Numbers} where
    abbrev pub replaced : CompactionResult f u → Value n → Value n
    replaced result payload =
        if result.was_compressed
        then put_messages (map message_value result.messages) payload
        else payload

    abbrev pub compacted_payload : CompactorConfig f → Option (List (Value n)) → Value n → Value n
    compacted_payload config none payload = payload
    compacted_payload config (some messages) payload =
        replaced (run_compactor config (filter_map compact_message messages)) payload

    unfoldable pub compact_payload : CompactorConfig f → Value n → Value n
    compact_payload config payload = compacted_payload config (array_at "messages" payload) payload
