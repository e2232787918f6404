-- ===== src/Compactor/Semantic/Importance.antt =====
-- src/compactor.rs: the importance of a message.
use Prim.Native.Char.{code}
use melis.Common.{
  ℕ, ◌+◌, ◌*◌, String, Bool, true, false, not, ◌&&◌, ◌||◌, List, [], ◌∷◌, map, keep, length,
  contains, leb, ltb, nat_beq, string_eq, ◌==◌, if◌then◌else◌,
}
use melis.Compactor.{CompactMessage}
use melis.Compactor.Text.{Unicode, len, split_whitespace, only_alphanumeric}

abbrev is_ascii_digit : ℕ → Bool
is_ascii_digit c = leb b'0' c && leb c b'9'

unfoldable pub starts_with : (prefix text : String) → Bool
starts_with String.[] t = true
starts_with (String.◌∷◌ c p) String.[] = false
starts_with (String.◌∷◌ c p) (String.◌∷◌ d t) = nat_beq (code c) (code d) && starts_with p t

-- `text.contains(part)`
unfoldable pub has_text : (part text : String) → Bool
has_text part String.[] = starts_with part ""
has_text part (String.◌∷◌ c t) = starts_with part (String.◌∷◌ c t) || has_text part t

unfoldable pub has_digit : String → Bool
has_digit String.[] = false
has_digit (String.◌∷◌ c s) = is_ascii_digit (code c) || has_digit s

-- Whether a text begins as the pattern says, in which a `0` stands for any digit.
unfoldable pub fits : (pattern text : String) → Bool
fits String.[] t = true
fits (String.◌∷◌ c p) String.[] = false
fits (String.◌∷◌ c p) (String.◌∷◌ d t) =
    (if nat_beq (code c) b'0' then is_ascii_digit (code d) else nat_beq (code c) (code d))
    && fits p t

-- YYYY-MM-DD or DD/MM/YYYY at some place.
unfoldable pub regex_lite_date_check : String → Bool
regex_lite_date_check String.[] = false
regex_lite_date_check (String.◌∷◌ c s) =
    fits "0000-00-00" (String.◌∷◌ c s)
    || (fits "00/00/0000" (String.◌∷◌ c s) || regex_lite_date_check s)

-- `gains - losses`
pub record Score : Type 0 where
  pub gains : ℕ
  pub losses : ℕ

abbrev when : Bool → ℕ → ℕ
when true n = n
when false n = 0

abbrev pub tech_keywords : List String
tech_keywords =
    "api" ∷ "endpoint" ∷ "token" ∷ "error" ∷ "config" ∷ "deploy" ∷ "database" ∷ "server" ∷ "port"
    ∷ "latency" ∷ "timeout" ∷ "cluster" ∷ []

abbrev pub query_stop_words : List String
query_stop_words =
    "o" ∷ "a" ∷ "de" ∷ "do" ∷ "da" ∷ "em" ∷ "no" ∷ "na" ∷ "que" ∷ "é" ∷ "the" ∷ "is" ∷ "of" ∷ "in"
    ∷ "to" ∷ "and" ∷ "for" ∷ "it" ∷ "on" ∷ "um" ∷ "uma" ∷ "com" ∷ "por" ∷ "para" ∷ "se" ∷ "como"
    ∷ "mais" ∷ []

module _ (u : Unicode) where
  open u use {to_lowercase}

  unfoldable pub calculate_score :
      CompactMessage
      → (is_last_user : Bool) (last_user_terms critical_markers : List String) → Score
  calculate_score msg is_last_user last_user_terms critical_markers =
      let content_lower = to_lowercase msg.content in
      let found = λ (part : String). has_text (to_lowercase part) content_lower in
      record {
        gains =
            when (msg.role == "system") 100
            + (when is_last_user 100
                + (length (keep found critical_markers) * 80
                    + (when (has_digit content_lower || has_text "%" content_lower) 30
                        + (when
                              (has_text "/v1/" content_lower
                                || (has_text "http://" content_lower
                                    || has_text "https://" content_lower))
                              30
                            + (when (regex_lite_date_check content_lower) 20
                                + (length (keep found last_user_terms) * 20
                                    + length (keep (λ kw. has_text kw content_lower) tech_keywords)
                                      * 15))))));
        losses =
            when (has_text "contexto auxiliar" content_lower) 30
            + (when (has_text "serve apenas para aumentar" content_lower) 20
                + when (msg.role == "assistant" && ltb (len msg.content) 30) 20);
      }

  unfoldable pub extract_query_terms : String → List String
  extract_query_terms content =
      keep (λ w. ltb 3 (len w) && not (contains query_stop_words w))
        (map (λ w. only_alphanumeric u (to_lowercase w)) (split_whitespace content))
