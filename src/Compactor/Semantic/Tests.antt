-- ===== src/Compactor/Semantic/Tests.antt =====
-- A history that the semantic compactor trims, and the theorems at it.
use Prim.Native.Char.{code}
use melis.Common.{ℕ, ◌≡◌, refl, true, false, ◌||◌, ◌&&◌, List, [], ◌∷◌, leb, is_whitespace}
use melis.Float.{hundredths}
use melis.Config.{CompactorConfig}
use melis.Compactor.{CompactMessage}
use melis.Compactor.Text.{Unicode, len, words_from, split_whitespace, only_alphanumeric}
use melis.Compactor.Keeps.{Returns}
use melis.Compactor.Semantic.{remove_lowest, trim_to_budget, score_all, compact}
use melis.Compactor.Semantic.Importance.{
  starts_with, has_text, has_digit, fits, regex_lite_date_check, calculate_score,
  extract_query_terms,
}
use melis.Compactor.Semantic.Keeps.{compact_keeps_guarded}

trimming : Unit {0}
unfolding len words_from split_whitespace only_alphanumeric is_whitespace starts_with has_text
    has_digit fits regex_lite_date_check calculate_score extract_query_terms remove_lowest
    trim_to_budget score_all compact
trimming = tt

abbrev ascii : Unicode
ascii = record {
  to_lowercase = λ s. s;
  is_alphanumeric =
      λ c. (leb b'a' (code c) && leb (code c) b'z') || (leb b'0' (code c) && leb (code c) b'9');
}

abbrev filler : CompactMessage
filler = record { role = "assistant"; content = "ok" }

abbrev incident : CompactMessage
incident = record { role = "assistant"; content = "the server port was 8080 on 2024-01-31" }

abbrev question : CompactMessage
question = record { role = "user"; content = "which port was it" }

abbrev history : List CompactMessage
history = filler ∷ incident ∷ filler ∷ question ∷ []

abbrev config : (min_final_tokens : ℕ) → CompactorConfig hundredths
config min_final_tokens = record {
  token_threshold = 1;
  max_history_messages = 10;
  stop_words = [];
  tokenizer_name = "";
  target_token_ratio = 10;
  min_final_tokens = min_final_tokens;
  critical_markers = "2024" ∷ [];
  preserve_critical_markers = false;
  strategy = "semantic_guarded_trimming";
}

score_tests :
    (regex_lite_date_check "on 31/01/2024." ≡ true)
    × (regex_lite_date_check "2024-1-31" ≡ false)
    × (extract_query_terms ascii "which port was it" ≡ "which" ∷ "port" ∷ [])
    × (calculate_score ascii incident false ("which" ∷ "port" ∷ []) ("2024" ∷ [])
        ≡ record { gains = 180; losses = 0 })
    × (calculate_score ascii filler false [] [] ≡ record { gains = 0; losses = 20 })
unfolding trimming
score_tests = (refl, refl, refl, refl, refl)

compact_tests :
    ((compact hundredths ascii history (config 19)).messages ≡ incident ∷ question ∷ [])
    × ((compact hundredths ascii history (config 6)).messages ≡ question ∷ [])
    × ((compact hundredths ascii history (config 0)).messages_pruned ≡ 3)
unfolding trimming
compact_tests = (refl, refl, refl)

-- A history without a protected message can be emptied.
emptied_test : (compact hundredths ascii (filler ∷ []) (config 0)).messages ≡ []
unfolding trimming
emptied_test = refl

compact_keeps_guarded_example :
    Returns hundredths ascii question (compact hundredths ascii history (config 6))
compact_keeps_guarded_example =
    compact_keeps_guarded hundredths ascii (config 6) history 3 question refl refl
