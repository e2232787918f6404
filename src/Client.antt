-- ===== src/Client.antt =====
-- src/client.rs: the errors of the HTTP client, and the splitter of a response into SSE events.
-- Bytes are numbers. What `reqwest` delivers is a list of chunks and errors; a poll that is pending
-- leaves the splitter as it is, and is not a step here.
pub mod Splitter
pub mod Merged
mod Tests
use melis.Common.{
  ℕ, zero, suc, ◌+◌, ◌&&◌, String, Bool, true, false, Option, none, some, List, [], ◌∷◌, ◌++◌, drop,
  nat_beq, leb, ltb, map_option, if◌then◌else◌,
}

pub data ClientError : Type 0 where
  timed_out : ClientError
  http_error : (status : ℕ) (body : String) → ClientError
  network_error : String → ClientError
  stream_error : String → ClientError

-- What `reqwest` makes of a request: an error, of which it says whether it is a timeout, or a
-- response with its body, as far as it can be read.
pub data Body : Type 0 where
  readable : String → Body
  unreadable : String → Body

pub data Exchange : Type 0 where
  no_response : (is_timeout : Bool) (e : String) → Exchange
  response : (status : ℕ) → Body → Exchange

-- What `send` returns.
pub data Sent : Type 0 where
  received : (body : String) → Sent
  refused : ClientError → Sent

abbrev no_response_error : (is_timeout : Bool) (e : String) → ClientError
no_response_error true e = timed_out
no_response_error false e = network_error e

abbrev error_body : Body → String
error_body (readable text) = text
error_body (unreadable e) = "Failed to read error body"

abbrev body_result : Body → Sent
body_result (readable text) = received text
body_result (unreadable e) = refused (network_error e)

-- `ReqwestLlmClient::send`, of what became of the request.
unfoldable pub send_result : Exchange → Sent
send_result (no_response is_timeout e) = refused (no_response_error is_timeout e)
send_result (response status body) =
    if leb 200 status && ltb status 300
    then body_result body
    else refused (http_error status (error_body body))

-- What the inner stream has ready.
pub data Chunk : Type 0 where
  bytes : List ℕ → Chunk
  broken : String → Chunk

-- `Result<Bytes, ClientError>`
pub data Piece : Type 0 where
  event : List ℕ → Piece
  failed : ClientError → Piece

abbrev pub take : ℕ → List ℕ → List ℕ
take zero bs = []
take (suc k) [] = []
take (suc k) (b ∷ bs) = b ∷ take k bs

abbrev pub newline : ℕ
newline = b'\n'

-- The first window of two newlines.
unfoldable pub find_double_newline : List ℕ → Option ℕ
find_double_newline [] = none
find_double_newline (b ∷ []) = none
find_double_newline (b ∷ c ∷ bs) =
    let later = find_double_newline (c ∷ bs) in
    if nat_beq b newline && nat_beq c newline then some 0 else map_option suc later

-- The state is the buffer and the inner stream. A poll is the end, or an item and the state after.
pub data Polled : Type 0 where
  ended : Polled
  ready : Piece → (buffer : List ℕ) (inner : List Chunk) → Polled

abbrev pub flush : (buffer : List ℕ) → Polled
flush [] = ended
flush (b ∷ bs) = ready (event (b ∷ bs)) [] []

-- The event up to `pos`, if there is one; what the inner stream makes of it otherwise.
abbrev pub drained : (buffer : List ℕ) (inner : List Chunk) → Option ℕ → Polled → Polled
drained buffer inner none otherwise = otherwise
drained buffer inner (some pos) otherwise =
    ready (event (take (pos + 2) buffer)) (drop (pos + 2) buffer) inner

-- `poll_next`, with its loop.
unfoldable pub poll_next : (buffer : List ℕ) (inner : List Chunk) → Polled
unfolding find_double_newline
poll_next buffer [] = drained buffer [] (find_double_newline buffer) (flush buffer)
poll_next buffer (bytes chunk ∷ rest) =
    drained buffer (bytes chunk ∷ rest) (find_double_newline buffer)
      (poll_next (buffer ++ chunk) rest)
poll_next buffer (broken e ∷ rest) =
    drained buffer (broken e ∷ rest) (find_double_newline buffer)
      (ready (failed (stream_error e)) buffer rest)

abbrev pub go_on : Polled → (List ℕ → List Chunk → Option (List Piece)) → Option (List Piece)
go_on ended later = some []
go_on (ready item buffer inner) later = map_option (λ items. item ∷ items) (later buffer inner)

-- The stream polled to its end, by the polls that are left; `none` if they are too few.
unfoldable pub pieces : ℕ → (buffer : List ℕ) (inner : List Chunk) → Option (List Piece)
pieces zero buffer inner = none
pieces (suc fuel) buffer inner = go_on (poll_next buffer inner) (pieces fuel)
