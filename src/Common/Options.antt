-- ===== src/Common/Options.antt =====
-- `Option` and iterator combinators, under Rust's names.
use Prim.Native.String.{String, ◌++◌}
use mathlib.Core.Bool.{Bool, true, false}
use mathlib.Core.Option.{Option, none, some}
use mathlib.Core.List.{List, [], ◌∷◌}

abbrev pub and_then {ℓ κ} : {A : Type ℓ} {B : Type κ} → Option A → (A → Option B) → Option B
and_then none f = none
and_then (some a) f = f a

abbrev pub unwrap_or {ℓ} : {A : Type ℓ} → Option A → A → A
unwrap_or none d = d
unwrap_or (some a) d = a

abbrev pub map_option {ℓ κ} : {A : Type ℓ} {B : Type κ} → (A → B) → Option A → Option B
map_option f none = none
map_option f (some a) = some (f a)

abbrev pub is_some {ℓ} : {A : Type ℓ} → Option A → Bool
is_some none = false
is_some (some a) = true

-- What `filter_map` puts in front for one element.
abbrev pub cons_some {ℓ} : {A : Type ℓ} → Option A → List A → List A
cons_some none rest = rest
cons_some (some a) rest = a ∷ rest

abbrev pub filter_map {ℓ κ} : {A : Type ℓ} {B : Type κ} → (A → Option B) → List A → List B
filter_map f [] = []
filter_map f (x ∷ xs) = cons_some (f x) (filter_map f xs)

-- `join(sep)`
abbrev pub join_by : String → List String → String
join_by sep [] = ""
join_by sep (s ∷ []) = s
join_by sep (s ∷ t ∷ ts) = s ++ (sep ++ join_by sep (t ∷ ts))
