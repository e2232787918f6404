-- ===== src/Float.antt =====
-- What the program does with an `f64`. The arithmetic is the machine's, so it is a parameter: the
-- operations as a record, and IEEE 754 facts about them as a second one, which a theorem takes
-- where it needs them. `u64` and `usize` are ℕ.
use melis.Common.{
  ℕ, suc, ◌+◌, ◌*◌, ◌/◌, ◌-◌, ◌^◌, ◌≤◌, ◌<◌, ◌≡◌, Bool, true, min, ltb, leb, le→leb, leb→le, arith,
}

pub record F64 : Type 1 where
  pub Carrier : Type 0
  -- `n as f64`
  pub of_u64 : ℕ → Carrier
  -- `x as u64`, which truncates and saturates
  pub to_u64 : Carrier → ℕ
  -- the literal with the digits `m` and `k` decimals
  pub lit : (m k : ℕ) → Carrier
  pub add : Carrier → Carrier → Carrier
  pub sub : Carrier → Carrier → Carrier
  pub mul : Carrier → Carrier → Carrier
  pub div : Carrier → Carrier → Carrier
  pub fmin : Carrier → Carrier → Carrier
  pub ceil : Carrier → Carrier
  -- `x < y` and `x <= y`, false if either is NaN
  pub lt : Carrier → Carrier → Bool
  pub le : Carrier → Carrier → Bool

-- IEEE 754 facts about the order, next to 1.0 and to the integers; those with a bound are about
-- integers that an `f64` holds exactly.
pub record IsOrdered (f : F64) : Type 0 where
  pub u64_le_refl : (n : ℕ) → f.le (f.of_u64 n) (f.of_u64 n) ≡ true
  pub zero-le-u64 : (n : ℕ) → f.le (f.of_u64 0) (f.of_u64 n) ≡ true
  pub fmin-le : (n : ℕ) (x : f.Carrier) → f.le (f.fmin (f.of_u64 n) x) (f.of_u64 n) ≡ true
  pub sub_one_le :
      (x y : f.Carrier)
      → f.le (f.lit 10 1) x ≡ true
      → f.le x y ≡ true
      → f.le (f.sub x (f.lit 10 1)) y ≡ true
  pub zero-le-sub_one :
      (x : f.Carrier) → f.le (f.lit 10 1) x ≡ true → f.le (f.of_u64 0) (f.sub x (f.lit 10 1)) ≡ true
  pub to_u64_pos : (x : f.Carrier) → f.le (f.lit 10 1) x ≡ true → 1 ≤ f.to_u64 x
  pub to_u64-le : (x : f.Carrier) (n : ℕ) → n < 2 ^ 53 → f.le x (f.of_u64 n) ≡ true → f.to_u64 x ≤ n

-- On the integers below 2 ^ 53 the arithmetic is exact.
pub record IsExact (f : F64) : Type 0 where
  pub fmin_exact : (n m : ℕ) → n < 2 ^ 53 → m ≤ n → f.fmin (f.of_u64 n) (f.of_u64 m) ≡ f.of_u64 m
  pub le_exact : (n : ℕ) → n < 2 ^ 53 → f.le (f.lit 10 1) (f.of_u64 n) ≡ leb 1 n
  pub sub_exact : (n : ℕ) → suc n < 2 ^ 53 → f.sub (f.of_u64 (suc n)) (f.lit 10 1) ≡ f.of_u64 n
  pub to_exact : (n : ℕ) → n < 2 ^ 53 → f.to_u64 (f.of_u64 n) ≡ n

-- Fixed point with two decimals: an instance that runs, for tests.
abbrev pub hundredths : F64
hundredths = record {
  Carrier = ℕ;
  of_u64 = λ n. n * 100;
  to_u64 = λ x. x / 100;
  lit = λ m k. m * 100 / 10 ^ k;
  add = λ x y. x + y;
  sub = λ x y. x - y;
  mul = λ x y. x * y / 100;
  div = λ x y. x * 100 / y;
  fmin = λ x y. min x y;
  ceil = λ x. (x + 99) / 100 * 100;
  lt = ltb;
  le = leb;
}

pub hundredths-IsOrdered : IsOrdered hundredths
hundredths-IsOrdered = record {
  u64_le_refl = λ n. ground arith;
  zero-le-u64 = λ n. ground arith;
  fmin-le = λ n x. le→leb _ _ (omega arith);
  sub_one_le = λ x y h k. le→leb _ _ (omega (arith, leb→le x y k));
  zero-le-sub_one = λ x h. ground arith;
  to_u64_pos = λ x h. omega (arith, leb→le 100 x h);
  to_u64-le = λ x n small h. omega (arith, leb→le x (n * 100) h);
}

pub hundredths-IsExact : IsExact hundredths
hundredths-IsExact = record {
  fmin_exact = λ n m small h. omega arith;
  le_exact = λ n small. ground arith;
  sub_exact = λ n small. omega arith;
  to_exact = λ n small. omega arith;
}
