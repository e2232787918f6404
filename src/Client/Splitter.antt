-- ===== src/Client/Splitter.antt =====
-- src/client.rs: what the splitter delivers.
use melis.Common.{
  ℕ, zero, suc, ◌+◌, ◌-◌, ◌≤◌, ◌<◌, ◌≡◌, ◌∙◌, refl, sym, ap, ◌⊎◌, inl, inr, Option, none, some,
  List, [], ◌∷◌, ◌++◌, drop, length, append_assoc, append-nil, length-append, arith,
}
use melis.Client.{
  ClientError, stream_error, Chunk, bytes, broken, Piece, event, failed, take, find_double_newline,
  Polled, ended, ready, flush, drained, poll_next, pieces,
}

-- The bytes and the errors of the inner stream, and those of what is delivered.
abbrev pub bytes_in : List Chunk → List ℕ
bytes_in [] = []
bytes_in (bytes c ∷ rest) = c ++ bytes_in rest
bytes_in (broken e ∷ rest) = bytes_in rest

abbrev pub errors_in : List Chunk → List ClientError
errors_in [] = []
errors_in (bytes c ∷ rest) = errors_in rest
errors_in (broken e ∷ rest) = stream_error e ∷ errors_in rest

abbrev pub bytes_out : List Piece → List ℕ
bytes_out [] = []
bytes_out (event e ∷ rest) = e ++ bytes_out rest
bytes_out (failed e ∷ rest) = bytes_out rest

abbrev pub errors_out : List Piece → List ClientError
errors_out [] = []
errors_out (event e ∷ rest) = errors_out rest
errors_out (failed e ∷ rest) = e ∷ errors_out rest

take-drop : (k : ℕ) (bs : List ℕ) → take k bs ++ drop k bs ≡ bs
take-drop zero bs = refl
take-drop (suc k) [] = refl
take-drop (suc k) (b ∷ bs) = ap (λ r. b ∷ r) (take-drop k bs)

length-drop-suc : (k : ℕ) (bs : List ℕ) → k < length bs → length (drop (suc k) bs) < length bs
length-drop-suc k [] h = absurd (omega arith)
length-drop-suc zero (b ∷ bs) h = omega arith
length-drop-suc (suc k) (b ∷ bs) h = omega (arith, length-drop-suc k bs (omega arith))

pub take-append : (k : ℕ) (bs cs : List ℕ) → k ≤ length bs → take k (bs ++ cs) ≡ take k bs
take-append zero bs cs h = refl
take-append (suc k) [] cs h = absurd (omega arith)
take-append (suc k) (b ∷ bs) cs h = ap (λ r. b ∷ r) (take-append k bs cs (omega arith))

pub drop-append : (k : ℕ) (bs cs : List ℕ) → k ≤ length bs → drop k (bs ++ cs) ≡ drop k bs ++ cs
drop-append zero bs cs h = refl
drop-append (suc k) [] cs h = absurd (omega arith)
drop-append (suc k) (b ∷ bs) cs h = drop-append k bs cs (omega arith)

-- A boundary lies inside the buffer, and stays the first when more bytes come.
pub find_inside :
    (bs : List ℕ) (pos : ℕ) → find_double_newline bs ≡ some pos → suc (suc pos) ≤ length bs
unfolding find_double_newline
find_inside [] pos h = cc
find_inside (b ∷ []) pos h = cc
find_inside (b ∷ c ∷ bs) pos h = ground (arith, find_inside (c ∷ bs) (pos - 1))

pub find-append :
    (bs cs : List ℕ) (pos : ℕ)
    → find_double_newline bs ≡ some pos
    → find_double_newline (bs ++ cs) ≡ some pos
unfolding find_double_newline
find-append [] cs pos h = cc
find-append (b ∷ []) cs pos h = cc
find-append (b ∷ c ∷ bs) cs pos h = ground (arith, find-append (c ∷ bs) cs (pos - 1))

-- What the stream still holds, as an upper bound of the polls that it is good for.
abbrev pub weight : List Chunk → ℕ
weight [] = 0
weight (bytes c ∷ rest) = suc (length c + weight rest)
weight (broken e ∷ rest) = suc (weight rest)

-- A poll delivers what comes first, keeps the rest, and gets on.
abbrev Conserves : (buffer : List ℕ) (inner : List Chunk) → Polled → Type 0
Conserves buffer inner ended = (buffer ≡ []) × (bytes_in inner ≡ []) × (errors_in inner ≡ [])
Conserves buffer inner (ready p buffer' inner') =
    (bytes_out (p ∷ []) ++ (buffer' ++ bytes_in inner') ≡ buffer ++ bytes_in inner)
    × (errors_out (p ∷ []) ++ errors_in inner' ≡ errors_in inner)
    × (length buffer' + weight inner' < length buffer + weight inner)

drained-Conserves :
    (buffer : List ℕ) (inner : List Chunk) (found : Option ℕ) (otherwise : Polled)
    → find_double_newline buffer ≡ found
    → Conserves buffer inner otherwise
    → Conserves buffer inner (drained buffer inner found otherwise)
drained-Conserves buffer inner none otherwise e h = h
drained-Conserves buffer inner (some pos) otherwise e h =
    let two : suc (suc pos) ≤ length buffer = find_inside buffer pos e in
    let next : pos + 2 ≡ suc (suc pos) = omega arith in
    rw next (
      ap (λ t. t ++ (drop (suc (suc pos)) buffer ++ bytes_in inner))
            (append-nil (take (suc (suc pos)) buffer))
          ∙ (sym (
                append_assoc (take (suc (suc pos)) buffer) (drop (suc (suc pos)) buffer)
                  (bytes_in inner))
              ∙ ap (λ t. t ++ bytes_in inner) (take-drop (suc (suc pos)) buffer)),
      refl,
      omega (arith, length-drop-suc (suc pos) buffer (omega arith)),
    )

append_empty : (xs ys : List ℕ) → xs ++ ys ≡ [] → (xs ≡ []) × (ys ≡ [])
append_empty [] ys h = (refl, h)
append_empty (x ∷ xs) ys h = cc

chunk-Conserves :
    (buffer chunk : List ℕ) (rest : List Chunk) (x : Polled)
    → Conserves (buffer ++ chunk) rest x
    → Conserves buffer (bytes chunk ∷ rest) x
chunk-Conserves buffer chunk rest ended h =
    let (no_buffer, no_chunk) = append_empty buffer chunk h.0 in (no_buffer, rw no_chunk h.1, h.2)
chunk-Conserves buffer chunk rest (ready p buffer' inner') h = (
  h.0 ∙ append_assoc buffer chunk (bytes_in rest),
  h.1,
  omega (arith, h.2, length-append buffer chunk),
)

flush-Conserves : (buffer : List ℕ) → Conserves buffer [] (flush buffer)
flush-Conserves [] = (refl, refl, refl)
flush-Conserves (b ∷ bs) = (simp append-nil, refl, omega arith)

poll_next-Conserves :
    (buffer : List ℕ) (inner : List Chunk) → Conserves buffer inner (poll_next buffer inner)
unfolding poll_next
poll_next-Conserves buffer [] = drained-Conserves buffer [] _ _ refl (flush-Conserves buffer)
poll_next-Conserves buffer (bytes chunk ∷ rest) =
    drained-Conserves buffer (bytes chunk ∷ rest) _ _ refl
      (chunk-Conserves buffer chunk rest _ (poll_next-Conserves (buffer ++ chunk) rest))
poll_next-Conserves buffer (broken e ∷ rest) =
    drained-Conserves buffer (broken e ∷ rest) (find_double_newline buffer)
      (ready (failed (stream_error e)) buffer rest) refl (refl, refl, omega arith)

-- An event has its only boundary at its end.
abbrev pub IsEvent : List ℕ → Type 0
IsEvent e = (pos : ℕ) × (find_double_newline e ≡ some pos) × (length e ≡ pos + 2)

find-take :
    (bs : List ℕ) (pos : ℕ)
    → find_double_newline bs ≡ some pos
    → find_double_newline (take (suc (suc pos)) bs) ≡ some pos
unfolding find_double_newline
find-take [] pos h = cc
find-take (b ∷ []) pos h = cc
find-take (b ∷ c ∷ bs) zero h = ground arith
find-take (b ∷ c ∷ bs) (suc pos) h = ground (arith, find-take (c ∷ bs) pos)

length-take : (k : ℕ) (bs : List ℕ) → k ≤ length bs → length (take k bs) ≡ k
length-take zero bs h = refl
length-take (suc k) [] h = absurd (omega arith)
length-take (suc k) (b ∷ bs) h = omega (arith, length-take k bs (omega arith))

-- An event without a boundary is the last.
abbrev Delivers : Polled → Type 0
Delivers ended = Unit
Delivers (ready (event e) buffer inner) =
    IsEvent e ⊎ ((find_double_newline e ≡ none) × (buffer ≡ []) × (inner ≡ []))
Delivers (ready (failed e) buffer inner) = Unit

drained-Delivers :
    (buffer : List ℕ) (inner : List Chunk) (found : Option ℕ) (otherwise : Polled)
    → find_double_newline buffer ≡ found
    → (found ≡ none → Delivers otherwise)
    → Delivers (drained buffer inner found otherwise)
drained-Delivers buffer inner none otherwise e h = h refl
drained-Delivers buffer inner (some pos) otherwise e h =
    let next : pos + 2 ≡ suc (suc pos) = omega arith in
    rw next (
      inl (
        pos,
        find-take buffer pos e,
        length-take (suc (suc pos)) buffer (find_inside buffer pos e) ∙ omega arith,
      ))

flush-Delivers : (buffer : List ℕ) → find_double_newline buffer ≡ none → Delivers (flush buffer)
flush-Delivers [] h = tt
flush-Delivers (b ∷ bs) h = inr (h, refl, refl)

poll_next-Delivers : (buffer : List ℕ) (inner : List Chunk) → Delivers (poll_next buffer inner)
unfolding poll_next
poll_next-Delivers buffer [] = drained-Delivers buffer [] _ _ refl (λ h. flush-Delivers buffer h)
poll_next-Delivers buffer (bytes chunk ∷ rest) =
    drained-Delivers buffer (bytes chunk ∷ rest) _ _ refl
      (λ h. poll_next-Delivers (buffer ++ chunk) rest)
poll_next-Delivers buffer (broken e ∷ rest) =
    drained-Delivers buffer (broken e ∷ rest) (find_double_newline buffer)
      (ready (failed (stream_error e)) buffer rest) refl (λ h. tt)

abbrev pub AreEvents : List Piece → Type 0
AreEvents [] = Unit
AreEvents (event e ∷ rest) =
    (IsEvent e ⊎ ((find_double_newline e ≡ none) × (rest ≡ []))) × AreEvents rest
AreEvents (failed e ∷ rest) = AreEvents rest

-- What a whole run delivers.
pub record IsSplit (buffer : List ℕ) (inner : List Chunk) (items : List Piece) : Type 0 where
  pub same_bytes : bytes_out items ≡ buffer ++ bytes_in inner
  pub same_errors : errors_out items ≡ errors_in inner
  pub events : AreEvents items

-- The end follows an empty buffer and an empty stream.
pieces_end : (fuel : ℕ) (items : List Piece) → pieces fuel [] [] ≡ some items → items ≡ []
unfolding pieces poll_next find_double_newline
pieces_end zero items h = cc
pieces_end (suc fuel) items h = cc

last_or_event :
    (fuel : ℕ) (e buffer : List ℕ) (inner : List Chunk) (items : List Piece)
    → Delivers (ready (event e) buffer inner)
    → pieces fuel buffer inner ≡ some items
    → IsEvent e ⊎ ((find_double_newline e ≡ none) × (items ≡ []))
last_or_event fuel e buffer inner items (inl is_event) run = inl is_event
last_or_event fuel e buffer inner items (inr (no_end, no_buffer, no_inner)) run =
    inr (no_end, pieces_end fuel items (cc))

step-IsSplit :
    (fuel : ℕ) (buffer : List ℕ) (inner : List Chunk) (x : Polled)
    → poll_next buffer inner ≡ x
    → Conserves buffer inner x
    → Delivers x
    → ((buffer' : List ℕ) (inner' : List Chunk)
        → length buffer' + weight inner' < fuel
        → (items : List Piece) × (pieces fuel buffer' inner' ≡ some items)
          × IsSplit buffer' inner' items)
    → length buffer + weight inner < suc fuel
    → (items : List Piece) × (pieces (suc fuel) buffer inner ≡ some items)
      × IsSplit buffer inner items
unfolding pieces
step-IsSplit fuel buffer inner ended e c d later h =
    ([], rw e refl, record { same_bytes = rw c.0 (sym c.1); same_errors = sym c.2; events = tt })
step-IsSplit fuel buffer inner (ready (event b) buffer' inner') e c d later h =
    let (items, run, split) = later buffer' inner' (omega arith) in
    (
      event b ∷ items,
      rw e (rw run refl),
      record {
        same_bytes =
            ap (λ t. b ++ t) split.same_bytes
            ∙ (sym (ap (λ t. t ++ (buffer' ++ bytes_in inner')) (append-nil b)) ∙ c.0);
        same_errors = split.same_errors ∙ c.1;
        events = (last_or_event fuel b buffer' inner' items d run, split.events);
      },
    )
step-IsSplit fuel buffer inner (ready (failed f) buffer' inner') e c d later h =
    let (items, run, split) = later buffer' inner' (omega arith) in
    (
      failed f ∷ items,
      rw e (rw run refl),
      record {
        same_bytes = split.same_bytes ∙ c.0;
        same_errors = ap (λ t. f ∷ t) split.same_errors ∙ c.1;
        events = split.events;
      },
    )

-- The polls end: one more than there are bytes and items to come is enough. What they deliver is,
-- joined, all that was in the buffer and came in, and the errors in their order; each event ends with
-- the first boundary in it, but for a last one, which has none.
pub pieces-IsSplit :
    (fuel : ℕ) (buffer : List ℕ) (inner : List Chunk)
    → length buffer + weight inner < fuel
    → (items : List Piece) × (pieces fuel buffer inner ≡ some items) × IsSplit buffer inner items
pieces-IsSplit zero buffer inner h = absurd (omega arith)
pieces-IsSplit (suc fuel) buffer inner h =
    step-IsSplit fuel buffer inner (poll_next buffer inner) refl (poll_next-Conserves buffer inner)
      (poll_next-Delivers buffer inner) (pieces-IsSplit fuel) h
