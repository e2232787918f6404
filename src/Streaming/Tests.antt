-- ===== src/Streaming/Tests.antt =====
-- A stream sent on, and the theorem on it at that stream.
use melis.Common.{
  ℕ, ◌≡◌, refl, String, none, some, List, [], ◌∷◌, ◌++◌, string_eq, ◌==◌, if◌then◌else◌,
  starts_with,
}
use melis.Json.{u64_numbers, Serde, object, end}
use melis.Transpiler.OpenAi.{open_ai_transpiler}
use melis.Client.{Piece, event}
use melis.Streaming.{done_marker, on_line, on_lines, transform_sse_stream}
use melis.Streaming.Text.{split_lines, trim}
use melis.Streaming.Order.{before_done, events_of, all_lines, transform_sse_stream_order}

abbrev serde : Serde u64_numbers
serde = record { parse = λ s. if s == "{}" then some (object end) else none; print = λ v. "{}" }

-- The empty piece stands for two events, any other for the end.
abbrev decode : List ℕ → String
decode [] = ": ping\ndata: {}\r\n\n data:{} \nbroken\n"
decode (b ∷ bs) = "data: [DONE]\ndata: {}"

abbrev pieces : List Piece
pieces = event [] ∷ event (1 ∷ []) ∷ event [] ∷ []

stream_test :
    transform_sse_stream serde open_ai_transpiler decode pieces ≡ "{}" ∷ "{}" ∷ "[DONE]" ∷ []
unfolding transform_sse_stream on_lines on_line split_lines trim starts_with
stream_test = refl

transform_sse_stream_order_example :
    transform_sse_stream serde open_ai_transpiler decode pieces
    ≡ events_of serde open_ai_transpiler
        (before_done serde open_ai_transpiler (all_lines decode pieces))
      ++ done_marker ∷ []
transform_sse_stream_order_example =
    transform_sse_stream_order serde open_ai_transpiler decode pieces
