-- ===== src/Common/Text.antt =====
-- Tests on texts, under the names of Rust's `str`.
use Prim.Native.Char.{code}
use Prim.Native.String.{String}
use mathlib.Core.Bool.{Bool, ◌||◌}
use mathlib.Core.Option.{Option, none, some}
use melis.Common.Tests.{nat_beq, if◌then◌else◌}
use melis.Common.Options.{is_some}
use text.Mathlib.Text.{◌==◌ as str_eq}

unfoldable pub strip_prefix : (prefix : String) → String → Option String
strip_prefix String.[] s = some s
strip_prefix (String.◌∷◌ p ps) String.[] = none
strip_prefix (String.◌∷◌ p ps) (String.◌∷◌ c s) =
    let rest = strip_prefix ps s in if nat_beq (code p) (code c) then rest else none

unfoldable pub starts_with : (prefix : String) → String → Bool
unfolding strip_prefix
starts_with prefix s = is_some (strip_prefix prefix s)

-- `str::contains` with a text.
unfoldable pub contains_text : (needle : String) → String → Bool
unfolding starts_with
contains_text needle String.[] = starts_with needle ""
contains_text needle (String.◌∷◌ c s) =
    starts_with needle (String.◌∷◌ c s) || contains_text needle s

unfoldable pub ends_with : (suffix : String) → String → Bool
ends_with suffix String.[] = str_eq suffix ""
ends_with suffix (String.◌∷◌ c s) = str_eq suffix (String.◌∷◌ c s) || ends_with suffix s
