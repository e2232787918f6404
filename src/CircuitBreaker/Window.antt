-- ===== src/CircuitBreaker/Window.antt =====
-- The sliding windows: the failures in the window are among its requests, whatever is recorded.
use melis.Common.{
  ℕ, ◌≤◌, Bool, ◌||◌, List, [], ◌∷◌, ◌++◌, keep, length, arith, Bool-cases, inl, inr,
}
use melis.Float.{F64}
use melis.CircuitBreaker.{
  CallResult, ProviderState, prune_window, is_failure, is_rate_limited, CircuitBreakerConfig,
  push_result,
}

-- `xs` is `ys` with some elements left out.
pub data Sublist : List ℕ → List ℕ → Type 0 where
  nil : Sublist [] []
  skip : {y : ℕ} {xs ys : List ℕ} → Sublist xs ys → Sublist xs (y ∷ ys)
  both : {x : ℕ} {xs ys : List ℕ} → Sublist xs ys → Sublist (x ∷ xs) (x ∷ ys)

pub Sublist-length : {xs ys : List ℕ} → Sublist xs ys → length xs ≤ length ys
Sublist-length nil = omega arith
Sublist-length (skip s) = omega (arith, Sublist-length s)
Sublist-length (both s) = omega (arith, Sublist-length s)

Sublist-concat : {xs ys : List ℕ} (a : ℕ) → Sublist xs ys → Sublist (xs ++ a ∷ []) (ys ++ a ∷ [])
Sublist-concat a nil = both nil
Sublist-concat a (skip s) = skip (Sublist-concat a s)
Sublist-concat a (both s) = both (Sublist-concat a s)

Sublist-concat_right : {xs ys : List ℕ} (a : ℕ) → Sublist xs ys → Sublist xs (ys ++ a ∷ [])
Sublist-concat_right a nil = skip nil
Sublist-concat_right a (skip s) = skip (Sublist-concat_right a s)
Sublist-concat_right a (both s) = both (Sublist-concat_right a s)

Sublist-keep : {xs ys : List ℕ} (p : ℕ → Bool) → Sublist xs ys → Sublist (keep p xs) (keep p ys)
Sublist-keep p nil = nil
Sublist-keep p (skip {y} s) = elim (Bool-cases (p y)) [
  | inl e ↦ rw e (skip (Sublist-keep p s))
  | inr e ↦ rw e (Sublist-keep p s)
]
Sublist-keep p (both {x} s) = elim (Bool-cases (p x)) [
  | inl e ↦ rw e (both (Sublist-keep p s))
  | inr e ↦ rw e (Sublist-keep p s)
]

module _ (f : F64) (config : CircuitBreakerConfig f) where
  pub push_result-Sublist :
      (now : ℕ) (result : CallResult) (p : ProviderState)
      → Sublist p.failures p.total_requests
      → Sublist
          (push_result f config now result p).failures
          (push_result f config now result p).total_requests
  unfolding push_result prune_window
  push_result-Sublist now result p s =
      elim (Bool-cases (is_failure result || is_rate_limited result)) [
        | inl e ↦ rw e (Sublist-keep _ (Sublist-concat now s))
        | inr e ↦ rw e (Sublist-keep _ (Sublist-concat_right now s))
      ]
