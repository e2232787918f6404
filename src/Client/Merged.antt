-- ===== src/Client/Merged.antt =====
-- src/client.rs: the splitter does not depend on where the chunks are cut.
use melis.Common.{
  ℕ, zero, suc, ◌+◌, ◌≡◌, refl, sym, Option, none, some, List, [], ◌∷◌, ◌++◌, drop, append_assoc,
  append-nil, arith,
}
use melis.Client.{
  Chunk, bytes, broken, Piece, find_double_newline, Polled, ended, ready, flush, drained, poll_next,
  go_on, pieces,
}
use melis.Client.Splitter.{bytes_in, find-append, find_inside, take-append, drop-append}

-- No chunk is an error.
abbrev pub Unbroken : List Chunk → Type 0
Unbroken [] = Unit
Unbroken (bytes c ∷ rest) = Unbroken rest
Unbroken (broken e ∷ rest) = ⊥

-- The same state, with what is to come already in the buffer.
abbrev merged : Polled → Polled
merged ended = ended
merged (ready p buffer inner) = ready p (buffer ++ bytes_in inner) []

drained-merged :
    (buffer : List ℕ) (inner : List Chunk) (found : Option ℕ) (otherwise : Polled)
    → find_double_newline buffer ≡ found
    → poll_next (buffer ++ bytes_in inner) [] ≡ merged otherwise
    → poll_next (buffer ++ bytes_in inner) [] ≡ merged (drained buffer inner found otherwise)
unfolding poll_next
drained-merged buffer inner none otherwise e h = h
drained-merged buffer inner (some pos) otherwise e h =
    let next : pos + 2 ≡ suc (suc pos) = omega arith in
    let inside = find_inside buffer pos e in
    let first = take-append (suc (suc pos)) buffer (bytes_in inner) inside in
    let rest = drop-append (suc (suc pos)) buffer (bytes_in inner) inside in
    rw (find-append buffer (bytes_in inner) pos e) (rw next (rw first (rw rest refl)))

merged-flush : (buffer : List ℕ) → flush buffer ≡ merged (flush buffer)
merged-flush [] = refl
merged-flush (b ∷ bs) = refl

merged-drained :
    (buffer : List ℕ) (found : Option ℕ)
    → drained buffer [] found (flush buffer) ≡ merged (drained buffer [] found (flush buffer))
merged-drained buffer none = merged-flush buffer
merged-drained buffer (some pos) = rw (append-nil (drop (pos + 2) buffer)) refl

poll_next-merged :
    (buffer : List ℕ) (inner : List Chunk)
    → Unbroken inner
    → poll_next (buffer ++ bytes_in inner) [] ≡ merged (poll_next buffer inner)
unfolding poll_next
poll_next-merged buffer [] u =
    rw (append-nil buffer) (merged-drained buffer (find_double_newline buffer))
poll_next-merged buffer (bytes chunk ∷ rest) u =
    drained-merged buffer (bytes chunk ∷ rest) _ _ refl (
      rw (sym (append_assoc buffer chunk (bytes_in rest)))
        (poll_next-merged (buffer ++ chunk) rest u))
poll_next-merged buffer (broken e ∷ rest) u = absurd u

abbrev StaysUnbroken : Polled → Type 0
StaysUnbroken ended = Unit
StaysUnbroken (ready p buffer inner) = Unbroken inner

drained-StaysUnbroken :
    (buffer : List ℕ) (inner : List Chunk) (found : Option ℕ) (otherwise : Polled)
    → Unbroken inner
    → StaysUnbroken otherwise
    → StaysUnbroken (drained buffer inner found otherwise)
drained-StaysUnbroken buffer inner none otherwise u h = h
drained-StaysUnbroken buffer inner (some pos) otherwise u h = u

flush-StaysUnbroken : (buffer : List ℕ) → StaysUnbroken (flush buffer)
flush-StaysUnbroken [] = tt
flush-StaysUnbroken (b ∷ bs) = tt

poll_next-StaysUnbroken :
    (buffer : List ℕ) (inner : List Chunk) → Unbroken inner → StaysUnbroken (poll_next buffer inner)
unfolding poll_next
poll_next-StaysUnbroken buffer [] u =
    drained-StaysUnbroken buffer [] (find_double_newline buffer) (flush buffer) tt
      (flush-StaysUnbroken buffer)
poll_next-StaysUnbroken buffer (bytes chunk ∷ rest) u =
    drained-StaysUnbroken buffer (bytes chunk ∷ rest) (find_double_newline buffer)
      (poll_next (buffer ++ chunk) rest) u (poll_next-StaysUnbroken (buffer ++ chunk) rest u)
poll_next-StaysUnbroken buffer (broken e ∷ rest) u = absurd u

go_on-merged :
    (x : Polled) (later : List ℕ → List Chunk → Option (List Piece))
    → StaysUnbroken x
    → ((buffer : List ℕ) (inner : List Chunk)
        → Unbroken inner
        → later buffer inner ≡ later (buffer ++ bytes_in inner) [])
    → go_on x later ≡ go_on (merged x) later
go_on-merged ended later u h = refl
go_on-merged (ready p buffer inner) later u h = rw (h buffer inner u) refl

-- How the bytes are cut into chunks makes no difference: a stream without errors is delivered, poll
-- for poll, as if all of it had come at once.
pub pieces-merged :
    (fuel : ℕ) (buffer : List ℕ) (inner : List Chunk)
    → Unbroken inner
    → pieces fuel buffer inner ≡ pieces fuel (buffer ++ bytes_in inner) []
unfolding pieces
pieces-merged zero buffer inner u = refl
pieces-merged (suc fuel) buffer inner u = rw (poll_next-merged buffer inner u) (
    go_on-merged (poll_next buffer inner) (pieces fuel) (poll_next-StaysUnbroken buffer inner u)
      (pieces-merged fuel))
