-- ===== src/Compactor/Text.antt =====
-- src/compactor.rs: the text functions of `SimpleCompactor`.
pub mod Length
use Prim.Native.Char.{Char, code}
use Prim.Native.String
use Prim.Native.String.{◌++◌ as ◌⧺◌}
use melis.Common.{
  ℕ, ◌+◌, ◌/◌, String, Bool, not, List, [], ◌∷◌, keep, any, is_empty, is_whitespace, ltb, nat_beq,
  string_eq, ◌==◌, if◌then◌else◌,
}

-- What the standard library takes from Unicode's tables.
pub record Unicode : Type 0 where
  pub to_lowercase : String → String
  pub is_alphanumeric : Char → Bool

-- `str::len`: the bytes of the UTF-8 form.
abbrev pub utf8_len : ℕ → ℕ
utf8_len c = if ltb c 0x80 then 1 else if ltb c 0x800 then 2 else if ltb c 0x10000 then 3 else 4

unfoldable pub len : String → ℕ
len String.[] = 0
len (String.◌∷◌ c s) = utf8_len (code c) + len s

-- `SimpleCompactor::count_tokens`
abbrev pub count_tokens : String → ℕ
count_tokens text = if nat_beq (len text) 0 then 0 else (len text + 3) / 4

abbrev pub push_word : String → List String → List String
push_word String.[] ws = ws
push_word (String.◌∷◌ c w) ws = String.◌∷◌ c w ∷ ws

-- The text up to the first whitespace, and the words after it.
unfoldable pub words_from : String → String × List String
words_from String.[] = ("", [])
words_from (String.◌∷◌ c s) =
    let (w, ws) = words_from s in
    if is_whitespace (code c) then ("", push_word w ws) else (String.◌∷◌ c w, ws)

-- `split_whitespace`
unfoldable pub split_whitespace : String → List String
split_whitespace s = let (w, ws) = words_from s in push_word w ws

-- `join(" ")`
unfoldable pub join : List String → String
join [] = ""
join (w ∷ []) = w
join (w ∷ v ∷ ws) = w ⧺ (" " ⧺ join (v ∷ ws))

module _ (u : Unicode) where
  open u use {to_lowercase, is_alphanumeric}

  unfoldable pub only_alphanumeric : String → String
  only_alphanumeric String.[] = ""
  only_alphanumeric (String.◌∷◌ c s) =
      let rest = only_alphanumeric s in if is_alphanumeric c then String.◌∷◌ c rest else rest

  abbrev pub is_stop_word : List String → String → Bool
  is_stop_word stop_words word =
      any (λ sw. to_lowercase sw == only_alphanumeric (to_lowercase word)) stop_words

  unfoldable pub remove_stop_words : String → List String → String
  remove_stop_words text stop_words =
      if is_empty stop_words
      then text
      else join (keep (λ word. not (is_stop_word stop_words word)) (split_whitespace text))
