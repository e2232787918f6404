-- ===== src/Transpiler/Payload.antt =====
-- src/transpiler/mod.rs: the errors of a translation, and the interface of the transpilers.
use melis.Common.{String, Option, none, some}
use melis.Json.{Numbers, Value}

pub data TranspilerError : Type 0 where
  missing_field : (field_name : String) → TranspilerError
  invalid_field_value : (field_name reason : String) → TranspilerError
  field_mapping_error : (source_field target_field reason : String) → TranspilerError
  unsupported_field : (field_name : String) → TranspilerError
  json_error : String → TranspilerError

-- `Result<Value, TranspilerError>`
pub data Translated (n : Numbers) : Type 0 where
  done : Value n → Translated n
  failed : TranspilerError → Translated n

pub record PayloadTranspiler (n : Numbers) : Type 0 where
  pub to_native : Value n → Translated n
  pub from_native : Value n → Translated n
  pub translate_chunk : Value n → Translated n

-- `ok_or_else` followed by the operator `?`.
abbrev pub required {ℓ} :
    {n : Numbers} {A : Type ℓ} → Option A → TranspilerError → (A → Translated n) → Translated n
required none e next = failed e
required (some a) e next = next a
