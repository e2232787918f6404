-- ===== src/Compactor/Semantic/Trim.antt =====
-- What the semantic compactor takes out: enough to meet the budget, or all that it may.
use melis.Common.{ℕ, ◌≤◌, ◌≡◌, ◌⊎◌, not, none, List, keep, max}
use melis.Float.{F64}
use melis.Config.{CompactorConfig}
use melis.Compactor.{CompactMessage, total_tokens, keep_at, last_user_from, CompactionResult}
use melis.Compactor.Text.{Unicode}
use melis.Compactor.Semantic.{is_guarded, score_all}
use melis.Compactor.Semantic.Entries.{messages_of}
use melis.Compactor.Semantic.Order.{AreLowest}
use melis.Compactor.Semantic.Loop.{left_over}

module _ (f : F64) (u : Unicode) where
  open f use {of_u64, to_u64, mul}

  -- Within the budget, by taking out messages of the lowest scores, or nothing but the protected ones.
  abbrev pub IsTrimmed : CompactorConfig f → List CompactMessage → CompactionResult f u → Type 0
  IsTrimmed config messages r =
      let scored = score_all f u config messages in
      ((r.final_tokens
          ≤ max (to_u64 (mul (of_u64 (total_tokens messages)) config.target_token_ratio))
              config.min_final_tokens)
        × ((removed : List ℕ) × (r.messages ≡ messages_of (left_over removed scored))
            × AreLowest removed (keep (λ s. not s.is_protected) scored)))
      ⊎ (r.messages ≡ keep_at (is_guarded f u config (last_user_from 0 messages none)) 0 messages)
