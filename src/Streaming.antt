-- ===== src/Streaming.antt =====
-- src/streaming.rs: a provider's SSE stream, chunk by chunk, to the events sent to the client. The
-- stream is a list of what the client delivers; `String::from_utf8_lossy` is the parameter `decode`,
-- `serde_json` the parameter `serde`. An event is its data.
pub mod Text
pub mod Order
mod Tests
use melis.Common.{
  ℕ, String, Bool, true, false, ◌||◌, Option, none, some, List, [], ◌∷◌, string_eq, ◌==◌,
  if◌then◌else◌, strip_prefix, starts_with,
}
use melis.Json.{Numbers, Value, Serde}
use melis.Transpiler.Payload.{Translated, done, failed, PayloadTranspiler}
use melis.Client.{Piece, event}
use melis.Client
use Text.{lines, trim}

pub data StreamError : Type 0 where
  connection : String → StreamError
  invalid_response : String → StreamError

abbrev pub done_marker : String
done_marker = "[DONE]"

-- What becomes of a line: nothing, the end of the stream, or an event.
pub data LineResult : Type 0 where
  skipped : LineResult
  stopped : LineResult
  emitted : String → LineResult

-- The line without its prefix; without one, the line itself.
abbrev pub after_prefix : (line : String) (spaced unspaced : Option String) → String
after_prefix line (some stripped) unspaced = trim stripped
after_prefix line none (some stripped) = trim stripped
after_prefix line none none = line

abbrev pub json_str : (line : String) → String
json_str line = after_prefix line (strip_prefix "data: " line) (strip_prefix "data:" line)

module _ {n : Numbers} (serde : Serde n) (transpiler : PayloadTranspiler n) where
  abbrev pub on_translated : Translated n → LineResult
  on_translated (done v) = emitted (serde.print v)
  on_translated (failed e) = skipped

  abbrev pub on_parsed : Option (Value n) → LineResult
  on_parsed none = skipped
  on_parsed (some v) = on_translated (transpiler.translate_chunk v)

  abbrev pub on_payload : String → LineResult
  on_payload payload =
      if payload == done_marker
      then stopped
      else if payload == ""
      then skipped
      else on_parsed (serde.parse payload)

  -- The body of the loop over the lines.
  unfoldable pub on_line : String → LineResult
  on_line raw =
      let line = trim raw in
      if (line == "") || starts_with ":" line then skipped else on_payload (json_str line)

  -- The events of a line, in front of the `rest` of the stream.
  abbrev pub in_front : LineResult → List String → List String
  in_front skipped rest = rest
  in_front stopped rest = done_marker ∷ []
  in_front (emitted d) rest = d ∷ rest

  unfoldable pub on_lines : List String → (rest : List String) → List String
  on_lines [] rest = rest
  on_lines (l ∷ ls) rest = in_front (on_line l) (on_lines ls rest)

  module _ (decode : List ℕ → String) where
    unfoldable pub transform_sse_stream : List Piece → List String
    transform_sse_stream [] = done_marker ∷ []
    transform_sse_stream (event bytes ∷ pieces) =
        on_lines (lines (decode bytes)) (transform_sse_stream pieces)
    transform_sse_stream (Client.failed e ∷ pieces) = done_marker ∷ []
