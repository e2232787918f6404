-- ===== src/Router/Compaction/Messages.antt =====
-- src/router.rs: what the handler's compaction does to the payload.
use melis.Common.{
  ◌≡◌, ◌⊎◌, inl, inr, refl, ap, String, true, false, some, List, [], ◌∷◌, map, filter_map,
  string_eq, string_beq_iff, ◌==◌, if◌then◌else◌, Bool-cases, none, ◌∙◌, arith,
}
use melis.Float.{F64}
use melis.Config.{CompactorConfig}
use melis.Json.{Numbers, Value, Fields, string, object, list, at, array_at}
use melis.Json.Laws.{get-put, to_list-of_list}
use melis.Compactor.{CompactMessage}
use melis.Compactor.Text.{Unicode}
use melis.Router.Compaction.{compact_message, message_value, run_compactor, compact_payload}

module _ {n : Numbers} where
  -- An object with the role and the content of the message and no other member.
  abbrev pub IsCopy : CompactMessage → Value n → Type 0
  IsCopy m v =
      (key : String)
      → at key v ≡ (
          if key == "role"
          then some (string m.role)
          else if key == "content"
          then some (string m.content)
          else none)

  -- Copies of the messages, one for each and in their order.
  abbrev pub AreCopies : List CompactMessage → List (Value n) → Type 0
  AreCopies [] [] = Unit
  AreCopies (m ∷ ms) (v ∷ vs) = IsCopy m v × AreCopies ms vs
  AreCopies [] (v ∷ vs) = ⊥
  AreCopies (m ∷ ms) [] = ⊥

  message_value-IsCopy : (m : CompactMessage) → IsCopy m (message_value m)
  message_value-IsCopy m key = ground (
    arith,
    string_beq_iff key "role",
    string_beq_iff key "content",
    string_beq_iff "role" key,
    string_beq_iff "content" key,
  )

map-AreCopies :
    (n : Numbers) (ms : List CompactMessage) → AreCopies {n = n} ms (map message_value ms)
map-AreCopies n [] = tt
map-AreCopies n (m ∷ ms) = (message_value-IsCopy m, map-AreCopies n ms)

module _ (f : F64) (u : Unicode) where
  module _ {n : Numbers} where
    -- Messages of which the compactor shortens the history are replaced by copies of those that it
    -- keeps, one for each and in their order, each with the role and the content and no other member,
    -- whatever other members it came with. No other member of the payload changes, and nothing at all
    -- where the compactor leaves the history.
    pub compact_payload_messages :
        (config : CompactorConfig f) (fields : Fields n) (messages : List (Value n)) (key : String)
        → array_at "messages" (object fields) ≡ some messages
        → let result = run_compactor f u config (filter_map compact_message messages) in
          ((result.was_compressed ≡ false)
            × (compact_payload f u config (object fields) ≡ object fields))
          ⊎ ((result.was_compressed ≡ true)
              × ((kept : List (Value n)) × AreCopies result.messages kept
                  × (array_at "messages" (compact_payload f u config (object fields)) ≡ some kept)
                  × (at key (compact_payload f u config (object fields))
                      ≡ (if key == "messages" then some (list kept) else at key (object fields)))))
    unfolding compact_payload
    compact_payload_messages config fields messages key has_messages =
        let result = run_compactor f u config (filter_map compact_message messages) in
        let kept = map (message_value {n = n}) result.messages in
        elim (Bool-cases result.was_compressed) [
          | inl shortened ↦ inr (
            shortened,
            (
              kept,
              map-AreCopies n result.messages,
              rw has_messages (
                  rw shortened (
                    rw (get-put "messages" "messages" (list kept) fields)
                      (ap some (to_list-of_list kept)))),
              rw has_messages (
                  rw shortened (
                    get-put "messages" key (list kept) fields
                    ∙ ground
                        (arith, string_beq_iff "messages" key, string_beq_iff key "messages"))),
            ),
          )
          | inr left_alone ↦ inl (left_alone, rw has_messages (rw left_alone refl))
        ]
