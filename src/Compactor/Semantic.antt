-- ===== src/Compactor/Semantic.antt =====
-- src/compactor.rs: `SemanticGuardedCompactor`, which removes the messages of the lowest score. A
-- score is an `i32` and is kept as the difference of what was added and what was subtracted: the
-- sums stay far below 2 ^ 31.
pub mod Importance
pub mod Entries
pub mod Keeps
pub mod Loop
pub mod Order
pub mod Trim
mod Tests
use melis.Common.{
  ℕ, suc, ◌+◌, ◌-◌, ◌≤◌, max, String, Bool, true, false, not, ◌&&◌, ◌||◌, Option, none, some, List,
  [], ◌∷◌, length, keep, any, map, sum_of, get_elem?, ltb, leb, string_eq, ◌==◌, if◌then◌else◌,
}
use melis.Float.{F64}
use melis.Config.{CompactorConfig}
use melis.Compactor.{
  CompactMessage, message_tokens, total_tokens, contains_index, last_user_from, is_index,
  CompactionResult, untouched, compacted,
}
use melis.Compactor.Text.{Unicode}
use Importance.{Score, has_text, calculate_score, extract_query_terms}

pub record ScoredMessage : Type 0 where
  pub index : ℕ
  pub message : CompactMessage
  pub score : Score
  pub is_protected : Bool
  pub token_count : ℕ

-- `a.score <= b.score`
abbrev pub score_leb : ScoredMessage → ScoredMessage → Bool
score_leb a b = leb (a.score.gains + b.score.losses) (b.score.gains + a.score.losses)

abbrev pub insert_sorted : ScoredMessage → List ScoredMessage → List ScoredMessage
insert_sorted s [] = s ∷ []
insert_sorted s (t ∷ ts) = if score_leb s t then s ∷ t ∷ ts else t ∷ insert_sorted s ts

-- `sort_by_key(|s| s.score)`, which is stable.
abbrev pub sort_by_score : List ScoredMessage → List ScoredMessage
sort_by_score [] = []
sort_by_score (s ∷ ss) = insert_sorted s (sort_by_score ss)

-- Step 7: the indices removed.
unfoldable pub remove_lowest :
    (target current : ℕ) (removed : List ℕ) (removable : List ScoredMessage) → List ℕ
remove_lowest target current removed [] = removed
remove_lowest target current removed (s ∷ ss) =
    let more = remove_lowest target (current - s.token_count) (s.index ∷ removed) ss in
    if leb current target then removed else more

abbrev pub content_at : List CompactMessage → Option ℕ → Option CompactMessage
content_at messages none = none
content_at messages (some idx) = get_elem? messages idx

module _ (f : F64) (u : Unicode) where
  open f use {of_u64, to_u64, mul}

  abbrev pub query_terms : Option CompactMessage → List String
  query_terms none = []
  query_terms (some m) = extract_query_terms u m.content

  abbrev pub is_critical : CompactorConfig f → CompactMessage → Bool
  is_critical config m =
      config.preserve_critical_markers
      && any (λ marker. has_text (u.to_lowercase marker) (u.to_lowercase m.content))
          config.critical_markers

  abbrev pub is_guarded : CompactorConfig f → Option ℕ → ℕ → CompactMessage → Bool
  is_guarded config last_user i m =
      m.role == "system" || (is_index last_user i || is_critical config m)

  -- Step 4.
  abbrev pub score_messages :
      CompactorConfig f
      → (last_user : Option ℕ) (terms : List String) → ℕ
      → List CompactMessage
      → List ScoredMessage
  score_messages config last_user terms i [] = []
  score_messages config last_user terms i (m ∷ ms) =
      record {
        index = i;
        message = m;
        score = calculate_score u m (is_index last_user i) terms config.critical_markers;
        is_protected = is_guarded config last_user i m;
        token_count = message_tokens m;
      }
      ∷ score_messages config last_user terms (suc i) ms

  -- Step 2.
  abbrev pub budget : CompactorConfig f → List CompactMessage → ℕ
  budget config messages =
      max (to_u64 (mul (of_u64 (total_tokens messages)) config.target_token_ratio))
        config.min_final_tokens

  abbrev pub with_messages : (messages final_messages : List CompactMessage) → CompactionResult f u
  with_messages messages final_messages =
      compacted f u messages (length messages - length final_messages) true
        (total_tokens final_messages) final_messages

  -- Steps 5 to 8.
  unfoldable pub trim_to_budget :
      (messages : List CompactMessage) (target : ℕ) (scored : List ScoredMessage)
      → CompactionResult f u
  trim_to_budget messages target scored =
      let removable = sort_by_score (keep (λ s. not s.is_protected) scored) in
      let removed = remove_lowest target (total_tokens messages) [] removable in
      if leb target (sum_of (λ s. s.token_count) (keep (λ s. s.is_protected) scored))
      then with_messages messages (map (λ s. s.message) (keep (λ s. s.is_protected) scored))
      else with_messages messages
          (map (λ s. s.message) (keep (λ s. not (contains_index removed s.index)) scored))

  unfoldable pub score_all : CompactorConfig f → List CompactMessage → List ScoredMessage
  score_all config messages =
      let last_user = last_user_from 0 messages none in
      score_messages config last_user (query_terms (content_at messages last_user)) 0 messages

  -- `SemanticGuardedCompactor::compact`
  unfoldable pub compact : List CompactMessage → CompactorConfig f → CompactionResult f u
  compact messages config =
      if ltb (total_tokens messages) config.token_threshold
      then untouched f u messages
      else trim_to_budget messages (budget config messages) (score_all config messages)
