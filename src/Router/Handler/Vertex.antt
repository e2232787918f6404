-- ===== src/Router/Handler/Vertex.antt =====
-- src/router.rs, src/streaming.rs and src/transpiler/vertex.rs: the provider type
-- "google_vertex_ai" in the handler.
use melis.Common.{
  ℕ, ◌≡◌, refl, ap, ◌∙◌, inl, inr, String, Option, none, some, List, [], ◌∷◌, ◌++◌, All, Bool-cases,
  string_eq, ◌==◌, starts_with, ◌||◌,
}
use melis.Json.{Numbers, Value, Serde, array_at}
use melis.Error.{ok}
use melis.Transpiler.{get_transpiler}
use melis.Transpiler.Vertex.{vertex_transpiler}
use melis.Transpiler.Vertex
use melis.Client.{Piece}
use melis.Streaming.{
  LineResult, skipped, stopped, emitted, done_marker, on_line, on_parsed, json_str,
  transform_sse_stream,
}
use melis.Streaming.Text.{trim}
use melis.Streaming.Order.{
  data_of, cut, before_done, events_of, all_lines, transform_sse_stream_order,
}
use melis.Router.Forward.{Target, build_body}

module _ {n : Numbers} (serde : Serde n) where
  -- A line that holds no chunk in Gemini's format, such as one in OpenAI's.
  abbrev pub HasNoCandidates : String → Type 0
  HasNoCandidates line =
      (v : Value n) → serde.parse (json_str (trim line)) ≡ some v → array_at "candidates" v ≡ none

  no_candidates_parsed :
      (o : Option (Value n))
      → ((v : Value n) → o ≡ some v → array_at "candidates" v ≡ none)
      → data_of (on_parsed serde (vertex_transpiler {n = n}) o) ≡ none
  unfolding Vertex.translate_chunk
  no_candidates_parsed none h = refl
  no_candidates_parsed (some v) h = rw (h v refl) refl

  no_data :
      (line : String)
      → HasNoCandidates line
      → data_of (on_line serde (vertex_transpiler {n = n}) line) ≡ none
  unfolding on_line
  no_data line h =
      let payload = json_str (trim line) in
      elim (Bool-cases ((trim line == "") || starts_with ":" (trim line))) [
        | inl aside ↦ rw aside refl
        | inr read ↦ rw read elim (Bool-cases (payload == done_marker)) [
          | inl last ↦ rw last refl
          | inr chunk ↦ rw chunk elim (Bool-cases (payload == "")) [
            | inl empty ↦ rw empty refl
            | inr full ↦ rw full (no_candidates_parsed (serde.parse payload) h)
          ]
        ]
      ]

  no_events :
      (lines : List String)
      → All HasNoCandidates lines
      → events_of serde (vertex_transpiler {n = n}) lines ≡ []
  no_events [] h = refl
  no_events (l ∷ ls) h = rw (no_data l h.0) (no_events ls h.1)

  All-before_done :
      (P : String → Type 0) (lines : List String)
      → All P lines
      → All P (before_done serde (vertex_transpiler {n = n}) lines)
  All-before_done P [] h = tt
  All-before_done P (l ∷ ls) h =
      All-cut P l (on_line serde vertex_transpiler l) _ h.0 (All-before_done P ls h.1)
    where
      All-cut :
          (P : String → Type 0) (l : String) (x : LineResult) (rest : List String)
          → P l
          → All P rest
          → All P (cut l x rest)
      All-cut P l skipped rest p h = (p, h)
      All-cut P l stopped rest p h = tt
      All-cut P l (emitted d) rest p h = (p, h)

  -- For a provider of type "google_vertex_ai" the payload is sent as it is, in OpenAI's format, but
  -- what is streamed back is read in Gemini's: of a stream none of whose lines holds Gemini's
  -- candidates, for instance one in OpenAI's format, the client receives nothing but the marker of the
  -- end.
  pub google_vertex_ai_mismatch :
      (t : Target) (payload : Value n) (decode : List ℕ → String) (pieces : List Piece)
      → t.ptype ≡ "google_vertex_ai"
      → All HasNoCandidates (all_lines decode pieces)
      → (build_body serde t payload ≡ ok (serde.print payload))
        × (transform_sse_stream serde (get_transpiler serde t.ptype) decode pieces
            ≡ done_marker ∷ [])
  unfolding build_body
  google_vertex_ai_mismatch t payload decode pieces gemini no_candidates = (
    rw gemini refl,
    rw gemini (
        transform_sse_stream_order serde vertex_transpiler decode pieces
        ∙ ap (λ ds. ds ++ done_marker ∷ [])
            (no_events _
              (All-before_done HasNoCandidates (all_lines decode pieces) no_candidates))),
  )
