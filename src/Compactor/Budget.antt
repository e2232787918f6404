-- ===== src/Compactor/Budget.antt =====
-- What a compaction costs: it never adds tokens, and its figures are those of its messages. The
-- caller subtracts `final_tokens` from `original_tokens` as unsigned numbers.
use melis.Common.{
  ℕ, suc, ◌≤◌, ◌≡◌, refl, String, Bool, true, not, ◌&&◌, Option, none, some, List, [], ◌∷◌,
  is_empty, if_ind, subst, arith, ◌≢◌,
}
use melis.Float.{F64}
use melis.Config.{CompactorConfig}
use melis.Compactor.{
  CompactMessage, message_tokens, total_tokens, contains_index, keep_at, last_message, windowed,
  CompactionResult, without_stop_words, untouched, or_last, finish, guarded, prune_to_target,
  prune_oldest, compact, eligible_indices,
}
use melis.Compactor.Text.{Unicode}
use melis.Compactor.Text.Length.{remove_stop_words-count_tokens}

keep_at-total :
    (p : ℕ → CompactMessage → Bool) (i : ℕ) (ms : List CompactMessage)
    → total_tokens (keep_at p i ms) ≤ total_tokens ms
keep_at-total p i [] = omega arith
keep_at-total p i (m ∷ ms) =
    if_ind (λ ns. total_tokens ns ≤ total_tokens (m ∷ ms)) (p i m)
      (omega (arith, keep_at-total p (suc i) ms)) (omega (arith, keep_at-total p (suc i) ms))

windowed-total : (n : ℕ) (ms : List CompactMessage) → total_tokens (windowed n ms) ≤ total_tokens ms
unfolding windowed
windowed-total n ms =
    if_ind (λ ns. total_tokens ns ≤ total_tokens ms) _ {y = ms} (keep_at-total _ 0 ms) (omega arith)

last_message-total :
    (ms : List CompactMessage) (m : CompactMessage)
    → last_message ms ≡ some m
    → message_tokens m ≤ total_tokens ms
last_message-total [] m e = cc
last_message-total (n ∷ []) m e =
    let same : n ≡ m = cc in
    subst (λ x. message_tokens x ≤ total_tokens (n ∷ [])) same (omega arith)
last_message-total (n ∷ k ∷ ms) m e = omega (arith, last_message-total (k ∷ ms) m e)

module _ (f : F64) (u : Unicode) where
  without_stop_words-total :
      (stop_words : List String) (eligible : List ℕ) (i : ℕ) (ms : List CompactMessage)
      → total_tokens (without_stop_words f u stop_words eligible i ms) ≤ total_tokens ms
  unfolding without_stop_words
  without_stop_words-total stop_words eligible i [] = omega arith
  without_stop_words-total stop_words eligible i (m ∷ ms) =
      let rest = without_stop_words-total stop_words eligible (suc i) ms in
      let fewer = remove_stop_words-count_tokens u m.content stop_words in
      if_ind
        (λ n.
          total_tokens (n ∷ without_stop_words f u stop_words eligible (suc i) ms)
          ≤ total_tokens (m ∷ ms))
        (contains_index eligible i && not (is_empty stop_words)) (omega (arith, fewer, rest))
        (omega (arith, rest))

  -- The figures are those of the messages, the messages cost no more, and there are some unless
  -- there were none.
  abbrev pub IsCompaction : List CompactMessage → CompactionResult f u → Type 0
  IsCompaction messages r =
      (r.original_tokens ≡ total_tokens messages)
      × (r.final_tokens ≡ total_tokens r.messages)
      × (r.final_tokens ≤ r.original_tokens)
      × (messages ≢ [] → r.messages ≢ [])

  untouched-IsCompaction :
      (messages : List CompactMessage) → IsCompaction messages (untouched f u messages)
  untouched-IsCompaction messages = (refl, refl, omega arith, λ h. h)

  guarded-IsCompaction :
      (messages : List CompactMessage) (pruned : ℕ) (b : Bool) (kept : List CompactMessage)
      → total_tokens kept ≤ total_tokens messages
      → IsCompaction messages (guarded f u messages pruned b (total_tokens kept) kept)
  unfolding guarded
  guarded-IsCompaction messages pruned b [] h = untouched-IsCompaction messages
  guarded-IsCompaction messages pruned b (m ∷ ms) h = (refl, refl, h, λ some_left e. cc)

  or_last-IsCompaction :
      (messages : List CompactMessage) (pruned : ℕ) (o : Option CompactMessage)
      → last_message messages ≡ o
      → IsCompaction messages (or_last f u messages pruned o)
  or_last-IsCompaction messages pruned none e = untouched-IsCompaction messages
  or_last-IsCompaction messages pruned (some m) e =
      (refl, refl, omega (arith, last_message-total messages m e), λ some_left e. cc)

  finish-IsCompaction :
      (messages : List CompactMessage) (pruned : ℕ) (kept : List CompactMessage)
      → total_tokens kept ≤ total_tokens messages
      → IsCompaction messages (finish f u messages pruned kept)
  unfolding finish
  finish-IsCompaction messages pruned [] h = or_last-IsCompaction messages pruned _ refl
  finish-IsCompaction messages pruned (m ∷ ms) h = (refl, refl, h, λ some_left e. cc)

  prune_to_target-IsCompaction :
      (config : CompactorConfig f) (messages window : List CompactMessage)
      → total_tokens window ≤ total_tokens messages
      → IsCompaction messages (prune_to_target f u config messages window)
  unfolding prune_to_target prune_oldest
  prune_to_target-IsCompaction config messages window h =
      let working = without_stop_words f u config.stop_words (eligible_indices window) 0 window in
      let cheaper : total_tokens working ≤ total_tokens messages =
        omega (
          arith,
          h,
          without_stop_words-total config.stop_words (eligible_indices window) 0 window,
        ) in
      if_ind (IsCompaction messages) _ (guarded-IsCompaction messages _ true working cheaper)
        (finish-IsCompaction messages _ _ (omega (arith, cheaper, keep_at-total _ 0 working)))

  -- On every path of `compact` the token counts reported are those of the messages given and
  -- returned, the messages returned cost at most the ones given, so that the caller's unsigned
  -- subtraction does not wrap, and some message is left unless none was given.
  pub compact-IsCompaction :
      (config : CompactorConfig f) (messages : List CompactMessage)
      → IsCompaction messages (compact f u messages config)
  unfolding compact
  compact-IsCompaction config messages =
      let cheaper = windowed-total config.max_history_messages messages in
      if_ind (IsCompaction messages) _ (untouched-IsCompaction messages) (
        if_ind (IsCompaction messages) _ (guarded-IsCompaction messages _ _ _ cheaper)
          (prune_to_target-IsCompaction config messages _ cheaper))
