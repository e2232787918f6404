-- ===== src/Compactor/Text/Length.antt =====
-- Removing words never makes a text longer.
use Prim.Native.Char.{code}
use Prim.Native.String.{◌++◌ as ◌⧺◌}
use text.Mathlib.TextLemmas.{nil-append, cons-append}
use melis.Common.{
  ℕ, suc, ◌+◌, ◌≤◌, ◌≡◌, String, not, List, [], ◌∷◌, sum_of, sum_of-keep-le, is_whitespace, inl,
  inr, arith, Bool-cases,
}
use melis.Compactor.Text.{
  Unicode, utf8_len, len, count_tokens, push_word, words_from, split_whitespace, join, is_stop_word,
  remove_stop_words,
}

-- A word with the space before it.
abbrev spaced : String → ℕ
spaced w = suc (len w)

len-append : (s t : String) → len (s ⧺ t) ≡ len s + len t
unfolding len
len-append String.[] t = rw nil-append (omega arith)
len-append (String.◌∷◌ c s) t = rw cons-append (omega (arith, len-append s t))

push_word-le :
    (w : String) (ws : List String)
    → sum_of spaced (push_word w ws) ≤ suc (len w + sum_of spaced ws)
push_word-le String.[] ws = omega arith
push_word-le (String.◌∷◌ c w) ws = omega arith

utf8_len_pos : (c : ℕ) → 1 ≤ utf8_len c
utf8_len_pos c = ground arith

words_from-le : (s : String) → len (words_from s).0 + sum_of spaced (words_from s).1 ≤ len s
unfolding words_from len
words_from-le String.[] = omega arith
words_from-le (String.◌∷◌ c s) =
    let some_byte = utf8_len_pos (code c) in
    elim (Bool-cases (is_whitespace (code c))) [
      | inl space ↦
          rw space (omega (arith, words_from-le s, push_word-le (words_from s).0 (words_from s).1))
      | inr letter ↦ rw letter (omega (arith, words_from-le s))
    ]

split_whitespace-le : (s : String) → sum_of spaced (split_whitespace s) ≤ suc (len s)
unfolding split_whitespace
split_whitespace-le s =
    omega (arith, words_from-le s, push_word-le (words_from s).0 (words_from s).1)

join-le : (n : ℕ) (ws : List String) → sum_of spaced ws ≤ suc n → len (join ws) ≤ n
unfolding join len
join-le n [] h = omega arith
join-le n (w ∷ []) h = omega arith
join-le n (w ∷ v ∷ ws) h = omega (
  arith,
  len-append w (" " ⧺ join (v ∷ ws)),
  len-append " " (join (v ∷ ws)),
  join-le (sum_of spaced ws + len v) (v ∷ ws) (omega arith),
)

remove_stop_words-le :
    (u : Unicode) (text : String) (stop_words : List String)
    → len (remove_stop_words u text stop_words) ≤ len text
unfolding remove_stop_words
remove_stop_words-le u text [] = omega arith
remove_stop_words-le u text (sw ∷ sws) = join-le (len text) _ (
    omega (
      arith,
      split_whitespace-le text,
      sum_of-keep-le spaced (λ word. not (is_stop_word u (sw ∷ sws) word)) (split_whitespace text),
    ))

pub count_tokens_mono : (s t : String) → len s ≤ len t → count_tokens s ≤ count_tokens t
count_tokens_mono s t h = ground (arith, h)

pub remove_stop_words-count_tokens :
    (u : Unicode) (text : String) (stop_words : List String)
    → count_tokens (remove_stop_words u text stop_words) ≤ count_tokens text
remove_stop_words-count_tokens u text stop_words =
    count_tokens_mono (remove_stop_words u text stop_words) text
      (remove_stop_words-le u text stop_words)
