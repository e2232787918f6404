-- ===== src/Transpiler/OpenAi.antt =====
-- src/transpiler/openai.rs: the passthrough.
use melis.Json.{Numbers}
use melis.Transpiler.Payload.{PayloadTranspiler, done}

-- `OpenAiTranspiler`
abbrev pub open_ai_transpiler : {n : Numbers} → PayloadTranspiler n
open_ai_transpiler = record {
  to_native = λ request. done request;
  from_native = λ response. done response;
  translate_chunk = λ chunk. done chunk;
}
