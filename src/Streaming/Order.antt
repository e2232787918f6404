-- ===== src/Streaming/Order.antt =====
-- src/streaming.rs: what is sent to the client, and that it ends.
use melis.Common.{ℕ, ◌≡◌, refl, ap, String, Option, none, some, List, [], ◌∷◌, ◌++◌, filter_map}
use melis.Json.{Numbers, Serde}
use melis.Transpiler.Payload.{PayloadTranspiler}
use melis.Client.{Piece, event}
use melis.Client
use melis.Streaming.{
  LineResult, skipped, stopped, emitted, in_front, done_marker, on_line, on_lines,
  transform_sse_stream,
}
use melis.Streaming.Text.{lines}

-- The event of a line, if there is one.
abbrev pub data_of : LineResult → Option String
data_of (emitted d) = some d
data_of _ = none

abbrev pub cut : (line : String) → LineResult → List String → List String
cut line stopped rest = []
cut line skipped rest = line ∷ rest
cut line (emitted d) rest = line ∷ rest

-- All lines in front of the first error.
abbrev pub all_lines : (decode : List ℕ → String) → List Piece → List String
all_lines decode [] = []
all_lines decode (event bytes ∷ pieces) = lines (decode bytes) ++ all_lines decode pieces
all_lines decode (Client.failed e ∷ pieces) = []

module _ {n : Numbers} (serde : Serde n) (transpiler : PayloadTranspiler n) where
  -- The lines in front of the first marker of the end.
  abbrev pub before_done : List String → List String
  before_done [] = []
  before_done (l ∷ ls) = cut l (on_line serde transpiler l) (before_done ls)

  -- The events of lines, one at most for each.
  abbrev pub events_of : List String → List String
  events_of ls = filter_map (λ l. data_of (on_line serde transpiler l)) ls

  line_lem :
      (l : String) (x : LineResult) (out ls : List String)
      → on_line serde transpiler l ≡ x
      → out ≡ events_of ls ++ done_marker ∷ []
      → in_front serde transpiler x out ≡ events_of (cut l x ls) ++ done_marker ∷ []
  line_lem l skipped out ls h e = rw h e
  line_lem l stopped out ls h e = refl
  line_lem l (emitted d) out ls h e = rw h (ap (λ t. d ∷ t) e)

  on_lines_lem :
      (ls later rest : List String)
      → rest ≡ events_of (before_done later) ++ done_marker ∷ []
      → on_lines serde transpiler ls rest
        ≡ events_of (before_done (ls ++ later)) ++ done_marker ∷ []
  unfolding on_lines
  on_lines_lem [] later rest e = e
  on_lines_lem (l ∷ ls) later rest e =
      line_lem l (on_line serde transpiler l) (on_lines serde transpiler ls rest)
        (before_done (ls ++ later)) refl (on_lines_lem ls later rest e)

  module _ (decode : List ℕ → String) where
    -- The lines up to the first error or the first marker of the end are taken in their order, and
    -- each that is a chunk the transpiler translates becomes one event, however the lines are spread
    -- over the pieces. Then comes one marker of the end, on every path.
    pub transform_sse_stream_order :
        (pieces : List Piece)
        → transform_sse_stream serde transpiler decode pieces
          ≡ events_of (before_done (all_lines decode pieces)) ++ done_marker ∷ []
    unfolding transform_sse_stream
    transform_sse_stream_order [] = refl
    transform_sse_stream_order (event bytes ∷ pieces) =
        on_lines_lem (lines (decode bytes)) (all_lines decode pieces) _
          (transform_sse_stream_order pieces)
    transform_sse_stream_order (Client.failed e ∷ pieces) = refl
