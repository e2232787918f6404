-- ===== src/Transpiler/VertexAnthropic/Body.antt =====
-- src/transpiler/vertex_anthropic.rs: how the body differs from that of Anthropic's own interface.
use melis.Common.{◌≡◌, ◌⊎◌, inl, inr, refl, String, none, some, string_eq, ◌==◌, if◌then◌else◌}
use melis.Json.{Numbers, Value, Fields, Serde, string, object, get, put, remove}
use melis.Json.Laws.{IsMap, get-put, get-remove}
use melis.Transpiler.Payload.{done, failed, TranspilerError}
use melis.Transpiler.Anthropic
use melis.Transpiler.Anthropic.Requests.{to_native_total}
use melis.Transpiler.VertexAnthropic.{vertex_anthropic_version, to_native}

module _ {n : Numbers} (serde : Serde n) where
  body_of : Fields n → Fields n
  body_of native = put "anthropic_version" (string vertex_anthropic_version) (remove "model" native)

  get-body_of :
      (native : Fields n) (key : String)
      → IsMap native
      → get key (body_of native) ≡ (
          if "anthropic_version" == key
          then some (string vertex_anthropic_version)
          else if "model" == key
          then none
          else get key native)
  unfolding body_of
  get-body_of native key h =
      rw (get-put "anthropic_version" key (string vertex_anthropic_version) (remove "model" native))
        (rw (get-remove "model" key native h) refl)

  -- Whatever Anthropic's transpiler refuses is refused with its error. Of whatever it translates, the
  -- body has the same member at every key but two: it has no `model`, and its `anthropic_version` is the
  -- fixed one.
  pub to_native_body :
      (request : Value n) (key : String)
      → ((e : TranspilerError) × (Anthropic.to_native serde request ≡ failed e)
          × (to_native serde request ≡ failed e))
        ⊎ ((native : Fields n) × (body : Fields n) × (Anthropic.to_native serde request
              ≡ done (object native))
            × (to_native serde request ≡ done (object body))
            × (get key body ≡ (
                if "anthropic_version" == key
                then some (string vertex_anthropic_version)
                else if "model" == key
                then none
                else get key native)))
  unfolding to_native body_of
  to_native_body request key = elim (to_native_total serde request) [
    | inl ((e, refused), why) ↦ inl (e, refused, rw refused refl)
    | inr (messages, model, has_messages, has_model, (native, translated, is_native)) ↦ inr (
      native,
      body_of native,
      translated,
      rw translated refl,
      get-body_of native key is_native.one_each,
    )
  ]
