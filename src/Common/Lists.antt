-- ===== src/Common/Lists.antt =====
-- Lists measured and indexed by native numbers, under the library's names, and a predicate on
-- every element.
use Prim.Native.Nat.{ℕ, zero, suc, ◌+◌, ◌≤◌, ◌<◌}
use mathlib.Core.Path.{◌≡◌}
use mathlib.Core.Logic.{◌⊎◌, inl, inr}
use mathlib.Core.Bool.{Bool, true, false, ◌||◌}
use mathlib.Core.Option.{Option, none, some}
use mathlib.Core.List.{List, [], ◌∷◌, ◌++◌}
use native.Mathlib.Omega.{arith}
use melis.Common.Tests.{if◌then◌else◌, Bool-cases}

module _ {ℓ} {A : Type ℓ} where
  abbrev pub length : List A → ℕ
  length [] = 0
  length (x ∷ xs) = suc (length xs)

  abbrev pub get_elem? : List A → ℕ → Option A
  get_elem? [] i = none
  get_elem? (x ∷ xs) zero = some x
  get_elem? (x ∷ xs) (suc i) = get_elem? xs i

  abbrev pub drop : ℕ → List A → List A
  drop zero xs = xs
  drop (suc n) [] = []
  drop (suc n) (x ∷ xs) = drop n xs

  abbrev pub is_empty : List A → Bool
  is_empty [] = true
  is_empty (x ∷ xs) = false

  -- `Iterator::filter` with a Boolean test.
  abbrev pub keep : (A → Bool) → List A → List A
  keep p [] = []
  keep p (x ∷ xs) = if p x then x ∷ keep p xs else keep p xs

  -- `Iterator::any` and `Iterator::all`.
  abbrev pub any : (A → Bool) → List A → Bool
  any p [] = false
  any p (x ∷ xs) = p x || any p xs

  -- `Iterator::find`.
  abbrev pub find : (A → Bool) → List A → Option A
  find p [] = none
  find p (x ∷ xs) = if p x then some x else find p xs

  pub length-append : (xs ys : List A) → length (xs ++ ys) ≡ length xs + length ys
  length-append [] ys = omega arith
  length-append (x ∷ xs) ys = omega (arith, length-append xs ys)

  pub length-keep-le : (p : A → Bool) (xs : List A) → length (keep p xs) ≤ length xs
  length-keep-le p [] = omega arith
  length-keep-le p (x ∷ xs) = ground (arith, length-keep-le p xs)

  abbrev pub sum_of : (A → ℕ) → List A → ℕ
  sum_of f [] = 0
  sum_of f (x ∷ xs) = f x + sum_of f xs

  pub sum_of-append : (f : A → ℕ) (xs ys : List A) → sum_of f (xs ++ ys) ≡ sum_of f xs + sum_of f ys
  sum_of-append f [] ys = omega arith
  sum_of-append f (x ∷ xs) ys = omega (arith, sum_of-append f xs ys)

  pub sum_of-keep-le : (f : A → ℕ) (p : A → Bool) (xs : List A) → sum_of f (keep p xs) ≤ sum_of f xs
  sum_of-keep-le f p [] = omega arith
  sum_of-keep-le f p (x ∷ xs) = ground (arith, sum_of-keep-le f p xs)

module _ {A : Type 0} where
  -- Membership by recursion, which the tactics take apart.
  abbrev pub In : A → List A → Type 0
  In a [] = ⊥
  In a (x ∷ xs) = (a ≡ x) ⊎ In a xs

  -- What holds of a member of a kept list.
  pub In-keep : (p : A → Bool) (a : A) (xs : List A) → In a (keep p xs) → In a xs × (p a ≡ true)
  In-keep p a [] m = absurd m
  In-keep p a (x ∷ xs) m = ground (arith, In-keep p a xs)

  pub In-keep_of : (p : A → Bool) (a : A) (xs : List A) → In a xs → p a ≡ true → In a (keep p xs)
  In-keep_of p a [] m h = absurd m
  In-keep_of p a (x ∷ xs) (inl e) h = ground arith
  In-keep_of p a (x ∷ xs) (inr m) h = ground (arith, In-keep_of p a xs m h)

  -- A stronger test keeps fewer elements, and strictly fewer where it drops a kept one.
  pub length-keep_mono :
      (q p : A → Bool) (xs : List A)
      → ((x : A) → q x ≡ true → p x ≡ true)
      → length (keep q xs) ≤ length (keep p xs)
  length-keep_mono q p [] h = omega arith
  length-keep_mono q p (x ∷ xs) h = ground (arith, h x, length-keep_mono q p xs h)

  pub length-keep-lt :
      (q p : A → Bool) (a : A) (xs : List A)
      → ((x : A) → q x ≡ true → p x ≡ true)
      → In a xs
      → p a ≡ true
      → q a ≡ false
      → length (keep q xs) < length (keep p xs)
  length-keep-lt q p a [] h m kept dropped = absurd m
  length-keep-lt q p a (x ∷ xs) h (inl e) kept dropped = ground (arith, length-keep_mono q p xs h)
  length-keep-lt q p a (x ∷ xs) h (inr m) kept dropped =
      ground (arith, h x, length-keep-lt q p a xs h m kept dropped)

  pub In-append_left : (a : A) (xs ys : List A) → In a xs → In a (xs ++ ys)
  In-append_left a [] ys m = absurd m
  In-append_left a (x ∷ xs) ys (inl e) = inl e
  In-append_left a (x ∷ xs) ys (inr m) = inr (In-append_left a xs ys m)

  pub In-append_right : (a : A) (xs ys : List A) → In a ys → In a (xs ++ ys)
  In-append_right a [] ys m = m
  In-append_right a (x ∷ xs) ys m = inr (In-append_right a xs ys m)

module _ {ℓ κ} {A : Type ℓ} (P : A → Type κ) where
  abbrev pub All : List A → Type κ
  All [] = Unit
  All (x ∷ xs) = P x × All xs

  pub All-append : (xs ys : List A) → All xs → All ys → All (xs ++ ys)
  All-append [] ys hx hy = hy
  All-append (x ∷ xs) ys hx hy = (hx.0, All-append xs ys hx.1 hy)

  pub All-keep : (p : A → Bool) (xs : List A) → All xs → All (keep p xs)
  All-keep p [] h = tt
  All-keep p (x ∷ xs) h = elim (Bool-cases (p x)) [
    | inl e ↦ rw e (h.0, All-keep p xs h.1)
    | inr e ↦ rw e (All-keep p xs h.1)
  ]
