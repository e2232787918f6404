-- ===== src/Client/Tests.antt =====
-- The splitter at concrete bytes, and its theorems at inputs that meet their hypotheses.
use melis.Common.{◌≡◌, refl, arith, some, List, [], ◌∷◌, ◌++◌}
use melis.Client.{Chunk, bytes, broken, Piece, event, failed, stream_error, pieces, poll_next}
use melis.Client.Splitter.{IsSplit, bytes_in, pieces-IsSplit}
use melis.Client.Merged.{pieces-merged}

-- "ab\n", then "\nc", with an error between.
abbrev stream : List Chunk
stream = bytes (97 ∷ 98 ∷ 10 ∷ []) ∷ broken "reset" ∷ bytes (10 ∷ 99 ∷ []) ∷ []

abbrev unbroken : List Chunk
unbroken = bytes (97 ∷ 10 ∷ []) ∷ bytes (10 ∷ 10 ∷ 10 ∷ 98 ∷ []) ∷ []

split_test :
    (pieces 20 [] stream
      ≡ some
          (failed (stream_error "reset") ∷ event (97 ∷ 98 ∷ 10 ∷ 10 ∷ []) ∷ event (99 ∷ []) ∷ []))
    × (pieces 20 [] unbroken
        ≡ some (event (97 ∷ 10 ∷ 10 ∷ []) ∷ event (10 ∷ 10 ∷ []) ∷ event (98 ∷ []) ∷ []))
unfolding pieces poll_next
split_test = (refl, refl)

pieces-IsSplit_example :
    (items : List Piece) × (pieces 20 [] stream ≡ some items) × IsSplit [] stream items
pieces-IsSplit_example = pieces-IsSplit 20 [] stream (omega arith)

pieces-merged_example : pieces 20 [] unbroken ≡ pieces 20 ([] ++ bytes_in unbroken) []
pieces-merged_example = pieces-merged 20 [] unbroken tt
