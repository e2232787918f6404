-- ===== src/Transpiler.antt =====
-- src/transpiler/mod.rs: the transpiler of a provider type.
pub mod Payload
pub mod OpenAi
pub mod Anthropic
pub mod Vertex
pub mod VertexAnthropic
mod Tests
use melis.Common.{String, string_eq, ◌==◌, if◌then◌else◌}
use melis.Json.{Numbers, Serde}
use Payload.{PayloadTranspiler}
use OpenAi.{open_ai_transpiler}
use Anthropic.{anthropic_transpiler}
use Vertex.{vertex_transpiler}
use VertexAnthropic.{vertex_anthropic_transpiler}

abbrev pub get_transpiler : {n : Numbers} → Serde n → (provider_type : String) → PayloadTranspiler n
get_transpiler serde provider_type =
    if provider_type == "anthropic"
    then anthropic_transpiler serde
    else if provider_type == "google_vertex_ai"
    then vertex_transpiler
    else if provider_type == "vertex_anthropic"
    then vertex_anthropic_transpiler serde
    else open_ai_transpiler
