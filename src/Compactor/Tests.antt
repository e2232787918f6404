-- ===== src/Compactor/Tests.antt =====
-- A short history under several budgets, and the theorems at it.
use Prim.Native.Char.{code}
use melis.Common.{ℕ, ◌≡◌, refl, inl, inr, true, ◌||◌, ◌&&◌, List, [], ◌∷◌, leb, is_whitespace}
use melis.Float.{hundredths}
use melis.Config.{CompactorConfig}
use melis.Compactor.{
  CompactMessage, windowed, eligible_indices, take_until, without_stop_words, finish, guarded,
  prune_oldest, prune_to_target, compact, untouched,
}
use melis.Compactor.Text.{
  Unicode, len, words_from, split_whitespace, join, only_alphanumeric, remove_stop_words,
}
use melis.Compactor.Budget.{IsCompaction, compact-IsCompaction}
use melis.Compactor.Keeps.{Returns, compact_keeps_system}

compaction : Unit {0}
unfolding len words_from split_whitespace join only_alphanumeric remove_stop_words is_whitespace
    windowed eligible_indices take_until without_stop_words finish guarded prune_oldest
    prune_to_target compact
compaction = tt

-- The letters and digits of ASCII, all in lower case.
abbrev ascii : Unicode
ascii = record {
  to_lowercase = λ s. s;
  is_alphanumeric =
      λ c. (leb b'a' (code c) && leb (code c) b'z') || (leb b'0' (code c) && leb (code c) b'9');
}

abbrev system : CompactMessage
system = record { role = "system"; content = "be brief" }

abbrev question : CompactMessage
question = record { role = "user"; content = "what is the time, please" }

abbrev reply : CompactMessage
reply = record { role = "assistant"; content = "noon" }

abbrev thanks : CompactMessage
thanks = record { role = "user"; content = "thanks" }

abbrev history : List CompactMessage
history = question ∷ system ∷ reply ∷ thanks ∷ []

abbrev config : (token_threshold max_history_messages : ℕ) → CompactorConfig hundredths
config token_threshold max_history_messages = record {
  token_threshold = token_threshold;
  max_history_messages = max_history_messages;
  stop_words = "the" ∷ "is" ∷ [];
  tokenizer_name = "";
  target_token_ratio = 0;
  min_final_tokens = 0;
  critical_markers = [];
  preserve_critical_markers = true;
  strategy = "adaptive_trimming";
}

remove_stop_words_test :
    remove_stop_words ascii " what  is the, time" ("the" ∷ "is" ∷ []) ≡ "what time"
unfolding compaction
remove_stop_words_test = refl

windowed_test : windowed 1 history ≡ system ∷ thanks ∷ []
unfolding compaction
windowed_test = refl

compact_tests :
    (compact hundredths ascii history (config 100 4) ≡ untouched hundredths ascii history)
    × ((compact hundredths ascii history (config 100 2)).messages ≡ system ∷ reply ∷ thanks ∷ [])
    × ((compact hundredths ascii history (config 5 4)).messages ≡ system ∷ reply ∷ thanks ∷ [])
    × ((compact hundredths ascii history (config 5 4)).messages_pruned ≡ 1)
unfolding compaction
compact_tests = (refl, refl, refl, refl)

-- With no budget the only message comes back, and is still counted as pruned.
keep_last_test :
    ((compact hundredths ascii (reply ∷ []) (config 0 1)).messages ≡ reply ∷ [])
    × ((compact hundredths ascii (reply ∷ []) (config 0 1)).messages_pruned ≡ 1)
unfolding compaction
keep_last_test = (refl, refl)

compact-IsCompaction_example :
    IsCompaction hundredths ascii history (compact hundredths ascii history (config 5 4))
compact-IsCompaction_example = compact-IsCompaction hundredths ascii (config 5 4) history

compact_keeps_system_example :
    Returns hundredths ascii system (compact hundredths ascii history (config 5 1))
compact_keeps_system_example =
    compact_keeps_system hundredths ascii (config 5 1) history system refl (inr (inl refl))
