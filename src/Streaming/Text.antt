-- ===== src/Streaming/Text.antt =====
-- src/streaming.rs: the operations on lines, from Rust's `str`.
use Prim.Native.Char.{code}
use melis.Common.{
  String, Bool, true, false, ◌&&◌, List, [], ◌∷◌, nat_beq, is_whitespace, if◌then◌else◌,
}

-- The first line, and those after it.
unfoldable pub split_lines : String → String × List String
split_lines String.[] = ("", [])
split_lines (String.◌∷◌ c s) =
    let (line, rest) = split_lines s in
    if nat_beq (code c) b'\n' then ("", line ∷ rest) else (String.◌∷◌ c line, rest)

-- `lines`, each to be trimmed. An empty last line and the carriage return before a newline, which
-- Rust's leaves out, do not outlive the trim and the test for empty lines.
abbrev pub lines : String → List String
lines s = let (line, rest) = split_lines s in line ∷ rest

unfoldable pub trim_start : String → String
unfolding is_whitespace
trim_start String.[] = ""
trim_start (String.◌∷◌ c s) =
    let rest = trim_start s in if is_whitespace (code c) then rest else String.◌∷◌ c s

abbrev is_nil : String → Bool
is_nil String.[] = true
is_nil (String.◌∷◌ c s) = false

unfoldable pub trim_end : String → String
unfolding is_whitespace
trim_end String.[] = ""
trim_end (String.◌∷◌ c s) =
    let rest = trim_end s in if is_whitespace (code c) && is_nil rest then "" else String.◌∷◌ c rest

unfoldable pub trim : String → String
unfolding trim_start trim_end
trim s = trim_end (trim_start s)
