-- ===== src/Transpiler/VertexAnthropic.antt =====
-- src/transpiler/vertex_anthropic.rs: Claude on Vertex AI.
pub mod Body
use melis.Common.{String, List, Option, some, none}
use melis.Json.{Numbers, Value, Serde, string, object, put, remove, as_object}
use melis.Transpiler.Payload.{Translated, done, failed, PayloadTranspiler, required}
use melis.Transpiler.Anthropic
use melis.Transpiler.Anthropic.{not_an_object}

abbrev pub vertex_anthropic_version : String
vertex_anthropic_version = "vertex-2023-10-16"

module _ {n : Numbers} where
  -- `model` out of the body, and the version into it.
  abbrev pub for_vertex : Translated n → Translated n
  for_vertex (failed e) = failed e
  for_vertex (done native) = required (as_object native) (not_an_object "request") (λ obj.
      done
        (object (put "anthropic_version" (string vertex_anthropic_version) (remove "model" obj))))

module _ {n : Numbers} (serde : Serde n) where
  unfoldable pub to_native : Value n → Translated n
  to_native request = for_vertex (Anthropic.to_native serde request)

  abbrev pub vertex_anthropic_transpiler : PayloadTranspiler n
  vertex_anthropic_transpiler = record {
    to_native = to_native;
    from_native = Anthropic.from_native serde;
    translate_chunk = Anthropic.translate_chunk;
  }
