-- ===== src/Common/Iff.antt =====
-- Chains of equivalences, and what the Boolean connectives say.
use mathlib.Core.Path.{◌≡◌}
use mathlib.Core.Logic.{◌↔◌, ◌⊎◌, inl, inr}
use mathlib.Core.Bool.{Bool, true, false, not, ◌&&◌, ◌||◌}
use native.Mathlib.Omega.{arith}

pub iff_trans {ℓ κ μ} : {A : Type ℓ} {B : Type κ} {C : Type μ} → A ↔ B → B ↔ C → A ↔ C
iff_trans e f = (λ a. f.0 (e.0 a), λ c. e.1 (f.1 c))

pub iff_× {ℓ κ μ ν} :
    {A : Type ℓ} {B : Type κ} {C : Type μ} {D : Type ν} → A ↔ B → C ↔ D → (A × C) ↔ (B × D)
iff_× e f = (λ p. (e.0 p.0, f.0 p.1), λ p. (e.1 p.0, f.1 p.1))

pub iff_⊎ {ℓ κ μ ν} :
    {A : Type ℓ} {B : Type κ} {C : Type μ} {D : Type ν} → A ↔ B → C ↔ D → (A ⊎ C) ↔ (B ⊎ D)
iff_⊎ e f = (
  elim [ inl a ↦ inl (e.0 a) | inr c ↦ inr (f.0 c) ],
  elim [ inl b ↦ inl (e.1 b) | inr d ↦ inr (f.1 d) ],
)

pub ||_iff : (a b : Bool) → ((a || b) ≡ true) ↔ ((a ≡ true) ⊎ (b ≡ true))
||_iff a b = ground arith

pub &&_iff : (a b : Bool) → ((a && b) ≡ true) ↔ ((a ≡ true) × (b ≡ true))
&&_iff a b = ground arith

-- `!a && !b` fails.
pub not_both_iff : (a b : Bool) → ((not a && not b) ≡ false) ↔ ((a ≡ true) ⊎ (b ≡ true))
not_both_iff a b = ground arith

pub not-eq-false_iff : (a : Bool) → (not a ≡ false) ↔ (a ≡ true)
not-eq-false_iff a = ground arith

pub &&-eq-false_iff : (a b : Bool) → ((a && b) ≡ false) ↔ ((a ≡ false) ⊎ (b ≡ false))
&&-eq-false_iff a b = ground arith
