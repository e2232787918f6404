-- ===== src/Compactor.antt =====
-- src/compactor.rs: `SimpleCompactor`, which shortens a message history to a token budget. A message
-- is named by its index as in the source, and a set of indices is a list. `f64` is the parameter
-- `f`; Unicode's tables (`to_lowercase`, `is_alphanumeric`) are the parameter `u`.
pub mod Text
pub mod Budget
pub mod Keeps
pub mod Semantic
mod Tests
use melis.Common.{
  ℕ, suc, ◌+◌, ◌-◌, String, Bool, true, false, not, ◌&&◌, ◌||◌, Option, none, some, List, [], ◌∷◌,
  length, drop, is_empty, sum_of, ltb, leb, nat_beq, string_eq, ◌==◌, if◌then◌else◌,
}
use melis.Float.{F64}
use melis.Config.{CompactorConfig}
use Text.{Unicode, count_tokens, remove_stop_words}

pub record CompactMessage : Type 0 where
  pub role : String
  pub content : String

abbrev pub message_tokens : CompactMessage → ℕ
message_tokens m = count_tokens m.role + count_tokens m.content

-- `SimpleCompactor::total_tokens`
abbrev pub total_tokens : List CompactMessage → ℕ
total_tokens messages = sum_of message_tokens messages

abbrev pub is_system : CompactMessage → Bool
is_system m = m.role == "system"

abbrev pub contains_index : List ℕ → ℕ → Bool
contains_index [] i = false
contains_index (j ∷ js) i = nat_beq j i || contains_index js i

-- `iter().enumerate()` followed by `filter` and a map back to the messages.
abbrev pub keep_at : (ℕ → CompactMessage → Bool) → ℕ → List CompactMessage → List CompactMessage
keep_at p i [] = []
keep_at p i (m ∷ ms) = if p i m then m ∷ keep_at p (suc i) ms else keep_at p (suc i) ms

-- The same, followed by a map to the indices.
abbrev pub indices : (ℕ → CompactMessage → Bool) → ℕ → List CompactMessage → List ℕ
indices p i [] = []
indices p i (m ∷ ms) = if p i m then i ∷ indices p (suc i) ms else indices p (suc i) ms

-- `iter().rposition(|m| m.role == "user")`
abbrev pub last_user_from : ℕ → List CompactMessage → Option ℕ → Option ℕ
last_user_from i [] acc = acc
last_user_from i (m ∷ ms) acc = last_user_from (suc i) ms (if m.role == "user" then some i else acc)

abbrev pub is_index : Option ℕ → ℕ → Bool
is_index none i = false
is_index (some j) i = nat_beq j i

abbrev pub last_message : List CompactMessage → Option CompactMessage
last_message [] = none
last_message (m ∷ []) = some m
last_message (m ∷ n ∷ ms) = last_message (n ∷ ms)

-- Step 2: all the system messages and the last `n` others.
unfoldable pub windowed : ℕ → List CompactMessage → List CompactMessage
windowed n messages =
    let others = indices (λ i m. not (is_system m)) 0 messages in
    let kept = drop (length others - n) others in
    if ltb n (length others)
    then keep_at (λ i m. is_system m || contains_index kept i) 0 messages
    else messages

-- Not a system message and not the last one of the user.
unfoldable pub eligible_indices : List CompactMessage → List ℕ
eligible_indices messages =
    let last_user = last_user_from 0 messages none in
    indices (λ i m. not (is_system m) && not (is_index last_user i)) 0 messages

-- The loop that takes the oldest eligible messages out until the target is met: the indices taken.
unfoldable pub take_until :
    (working : List CompactMessage) (target : ℕ) (taken eligible : List ℕ) → List ℕ
take_until working target taken [] = taken
take_until working target taken (idx ∷ rest) =
    let now = idx ∷ taken in
    let remaining = total_tokens (keep_at (λ i m. not (contains_index now i)) 0 working) in
    let more = take_until working target now rest in if leb remaining target then now else more

module _ (f : F64) (u : Unicode) where
  open f use {Carrier, of_u64, to_u64, lit, mul, div}

  pub record CompactionResult : Type 0 where
    pub original_tokens : ℕ
    pub final_tokens : ℕ
    pub messages_pruned : ℕ
    pub compression_ratio : Carrier
    pub was_compressed : Bool
    pub messages : List CompactMessage

  -- The content without its stop words at the eligible indices.
  unfoldable pub without_stop_words :
      (stop_words : List String) (eligible : List ℕ) → ℕ → List CompactMessage → List CompactMessage
  without_stop_words stop_words eligible i [] = []
  without_stop_words stop_words eligible i (m ∷ ms) =
      (if contains_index eligible i && not (is_empty stop_words)
        then record { role = m.role; content = remove_stop_words u m.content stop_words }
        else m)
      ∷ without_stop_words stop_words eligible (suc i) ms

  abbrev pub untouched : List CompactMessage → CompactionResult
  untouched messages = record {
    original_tokens = total_tokens messages;
    final_tokens = total_tokens messages;
    messages_pruned = 0;
    compression_ratio = lit 10 1;
    was_compressed = false;
    messages = messages;
  }

  abbrev pub ratio : (final_tokens original_tokens : ℕ) → Carrier
  ratio final_tokens original_tokens =
      if ltb 0 original_tokens then div (of_u64 final_tokens) (of_u64 original_tokens) else lit 10 1

  abbrev pub compacted :
      (messages : List CompactMessage) (messages_pruned : ℕ) (was_compressed : Bool)
      (final_tokens : ℕ) (final_messages : List CompactMessage)
      → CompactionResult
  compacted messages messages_pruned was_compressed final_tokens final_messages = record {
    original_tokens = total_tokens messages;
    final_tokens = final_tokens;
    messages_pruned = messages_pruned;
    compression_ratio = ratio final_tokens (total_tokens messages);
    was_compressed = was_compressed;
    messages = final_messages;
  }

  -- The last step: never an empty list.
  abbrev pub or_last :
      (messages : List CompactMessage) (messages_pruned : ℕ)
      → Option CompactMessage
      → CompactionResult
  or_last messages messages_pruned none = untouched messages
  or_last messages messages_pruned (some m) =
      compacted messages messages_pruned true (total_tokens (m ∷ [])) (m ∷ [])

  unfoldable pub finish :
      (messages : List CompactMessage) (messages_pruned : ℕ) (final_messages : List CompactMessage)
      → CompactionResult
  finish messages messages_pruned [] = or_last messages messages_pruned (last_message messages)
  finish messages messages_pruned (m ∷ ms) =
      compacted messages messages_pruned true (total_tokens (m ∷ ms)) (m ∷ ms)

  -- Steps 3 and 4's early returns, each guarded against an empty list.
  unfoldable pub guarded :
      (messages : List CompactMessage) (messages_pruned : ℕ) (was_compressed : Bool) (tokens : ℕ)
      (kept : List CompactMessage)
      → CompactionResult
  guarded messages messages_pruned was_compressed tokens [] = untouched messages
  guarded messages messages_pruned was_compressed tokens (m ∷ ms) =
      compacted messages messages_pruned was_compressed tokens (m ∷ ms)

  -- 75% of the original tokens.
  abbrev pub target_tokens : List CompactMessage → ℕ
  target_tokens messages = to_u64 (mul (of_u64 (total_tokens messages)) (lit 75 2))

  -- The loop over the eligible messages, and the result without the ones it takes.
  unfoldable pub prune_oldest :
      (messages : List CompactMessage) (pruned_by_window : ℕ) (eligible : List ℕ)
      (working : List CompactMessage)
      → CompactionResult
  prune_oldest messages pruned_by_window eligible working =
      let taken = take_until working (target_tokens messages) [] eligible in
      finish messages (pruned_by_window + length taken)
        (keep_at (λ i m. not (contains_index taken i)) 0 working)

  -- Step 4, on the window.
  unfoldable pub prune_to_target :
      CompactorConfig f → (messages window : List CompactMessage) → CompactionResult
  prune_to_target config messages window =
      let pruned_by_window = length messages - length window in
      let eligible = eligible_indices window in
      let working = without_stop_words config.stop_words eligible 0 window in
      let tokens_after_stopwords = total_tokens working in
      if leb tokens_after_stopwords (target_tokens messages)
      then guarded messages pruned_by_window true tokens_after_stopwords working
      else prune_oldest messages pruned_by_window eligible working

  -- `SimpleCompactor::compact`
  unfoldable pub compact : List CompactMessage → CompactorConfig f → CompactionResult
  compact messages config =
      let window = windowed config.max_history_messages messages in
      let pruned_by_window = length messages - length window in
      let tokens_after_window = total_tokens window in
      if ltb (total_tokens messages) config.token_threshold
        && leb (length messages) config.max_history_messages
      then untouched messages
      else if ltb tokens_after_window config.token_threshold
      then guarded messages pruned_by_window (ltb 0 pruned_by_window) tokens_after_window window
      else prune_to_target config messages window
