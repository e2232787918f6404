-- ===== src/Common/Keys.antt =====
-- Equality tests as an interface, and a map as an association list over such keys.
use Prim.Native.Nat.{ℕ}
use Prim.Native.String.{String}
use mathlib.Core.Path.{◌≡◌, refl}
use mathlib.Core.Logic.{◌↔◌}
use mathlib.Core.Bool.{Bool, true, ◌&&◌}
use mathlib.Core.Option.{Option, none, some}
use mathlib.Core.List.{List, [], ◌∷◌}
use native.Mathlib.Omega.{arith}
use text.Mathlib.Text.{◌==◌ as str_eq}
use text.Mathlib.TextEquality.{eq_iff}
use melis.Common.Tests.{nat_beq, nat_beq_iff, if◌then◌else◌}
use melis.Common.Lists.{any}

-- Keys that a test tells apart.
pub record Eq {ℓ} (K : Type ℓ) : Type ℓ where
  pub is_same : K → K → Bool
  pub is_same_iff : (k k' : K) → (is_same k k' ≡ true) ↔ (k ≡ k')

infix 50 ◌==◌
abbrev pub ◌==◌ {ℓ} : {K : Type ℓ} ⦃keys : Eq K⦄ (k k' : K) → Bool
◌==◌ ⦃keys⦄ k k' = keys.is_same k k'

pub string_beq_iff : (s t : String) → (str_eq s t ≡ true) ↔ (s ≡ t)
string_beq_iff = eq_iff

instance abbrev pub string_eq : Eq String
string_eq = record { is_same = str_eq; is_same_iff = string_beq_iff }

instance abbrev pub nat_eq : Eq ℕ
nat_eq = record { is_same = nat_beq; is_same_iff = nat_beq_iff }

-- A key of two texts, compared one after the other.
abbrev pub pair_beq : (String × String) → (String × String) → Bool
pair_beq (a, b) (c, d) = (a == c) && (b == d)

pub pair_beq_iff : (p q : String × String) → (pair_beq p q ≡ true) ↔ (p ≡ q)
pair_beq_iff (a, b) (c, d) = ground (arith, eq_iff a c, eq_iff b d)

instance abbrev pub pair_eq : Eq (String × String)
pair_eq = record { is_same = pair_beq; is_same_iff = pair_beq_iff }

module _ {ℓ} {K : Type ℓ} ⦃keys : Eq K⦄ where
  -- `contains` of a slice.
  abbrev pub contains : List K → K → Bool
  contains ks k = any (λ k'. k' == k) ks

  pub is_same_refl : (k : K) → (k == k) ≡ true
  is_same_refl k = (keys.is_same_iff k k).1 refl

-- A `HashMap` as an association list: `insert` replaces the value of a key that is there.
module _ {ℓ κ} {K : Type ℓ} {V : Type κ} ⦃keys : Eq K⦄ where
  abbrev pub lookup : (key : K) → List (K × V) → Option V
  lookup key [] = none
  lookup key ((k, value) ∷ entries) = if k == key then some value else lookup key entries

  abbrev pub insert : (key : K) → V → List (K × V) → List (K × V)
  insert key value [] = (key, value) ∷ []
  insert key value ((k, old) ∷ entries) =
      if k == key then (key, value) ∷ entries else (k, old) ∷ insert key value entries

  pub lookup-insert :
      (key other : K) (value : V) (entries : List (K × V))
      → lookup other (insert key value entries)
        ≡ (if key == other then some value else lookup other entries)
  lookup-insert key other value [] = refl
  lookup-insert key other value ((k, old) ∷ entries) =
      let rest = lookup-insert key other value entries in
      ground
        (arith, keys.is_same_iff k other, keys.is_same_iff key other, keys.is_same_iff k key, rest)

  pub lookup-insert_self :
      (key : K) (value : V) (entries : List (K × V))
      → lookup key (insert key value entries) ≡ some value
  lookup-insert_self key value entries =
      rw (lookup-insert key key value entries, (keys.is_same_iff key key).1 refl)
