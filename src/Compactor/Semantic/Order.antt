-- ===== src/Compactor/Semantic/Order.antt =====
-- The loop of the semantic compactor takes the entries of the lowest score first.
use melis.Common.{
  ℕ, ◌+◌, ◌-◌, ◌≡◌, refl, sym, subst, inl, inr, true, false, not, ◌||◌, List, [], ◌∷◌, All, leb,
  le→leb, leb→le, nat_beq_iff, if_ind, arith, Bool-cases, if◌then◌else◌,
}
use melis.Compactor.{contains_index}
use melis.Compactor.Semantic.{ScoredMessage, score_leb, insert_sorted, sort_by_score, remove_lowest}
use melis.Compactor.Semantic.Loop.{
  Distinct, IsFresh, still-IsFresh, remove_lowest_keeps, sort-All, sort_by_score-All_back,
}

abbrev Sorted : List ScoredMessage → Type 0
Sorted [] = Unit
Sorted (s ∷ ss) = All (λ t. score_leb s t ≡ true) ss × Sorted ss

score_leb_trans :
    (s t v : ScoredMessage) → score_leb s t ≡ true → score_leb t v ≡ true → score_leb s v ≡ true
score_leb_trans s t v h k = le→leb _ _ (omega (arith, leb→le _ _ h, leb→le _ _ k))

score_leb_total : (s t : ScoredMessage) → score_leb s t ≡ false → score_leb t s ≡ true
score_leb_total s t h = ground arith

All-above :
    (s t : ScoredMessage) (ss : List ScoredMessage)
    → score_leb s t ≡ true
    → All (λ v. score_leb t v ≡ true) ss
    → All (λ v. score_leb s v ≡ true) ss
All-above s t [] h hs = tt
All-above s t (v ∷ vs) h hs = (score_leb_trans s t v h hs.0, All-above s t vs h hs.1)

insert_sorted-Sorted :
    (s : ScoredMessage) (ss : List ScoredMessage) → Sorted ss → Sorted (insert_sorted s ss)
insert_sorted-Sorted s [] h = (tt, tt)
insert_sorted-Sorted s (t ∷ ts) h = elim (Bool-cases (score_leb s t)) [
  | inl first ↦
      subst (λ b. Sorted (if b then s ∷ t ∷ ts else t ∷ insert_sorted s ts)) (sym first)
        ((first, All-above s t ts first h.0), h)
  | inr after ↦
      subst (λ b. Sorted (if b then s ∷ t ∷ ts else t ∷ insert_sorted s ts)) (sym after)
        (
          sort-All (λ v. score_leb t v ≡ true) s ts (score_leb_total s t after) h.0,
          insert_sorted-Sorted s ts h.1,
        )
]

pub sort_by_score-Sorted : (ss : List ScoredMessage) → Sorted (sort_by_score ss)
sort_by_score-Sorted [] = tt
sort_by_score-Sorted (s ∷ ss) = insert_sorted-Sorted s (sort_by_score ss) (sort_by_score-Sorted ss)

-- What is taken out scores no more than what is left: `s` is left, or `t` is taken out, or the score
-- of `s` is at most that of `t`.
abbrev pub IsInOrder : List ℕ → ScoredMessage → ScoredMessage → Type 0
IsInOrder removed s t =
    (not (contains_index removed s.index)
      || (contains_index removed t.index
          || leb (s.score.gains + t.score.losses) (t.score.gains + s.score.losses)))
    ≡ true

abbrev pub AreLowest : List ℕ → List ScoredMessage → Type 0
AreLowest removed ss = All (λ s. All (IsInOrder removed s) ss) ss

row_left :
    (removed : List ℕ) (s : ScoredMessage) (ts : List ScoredMessage)
    → contains_index removed s.index ≡ false
    → All (IsInOrder removed s) ts
row_left removed s [] h = tt
row_left removed s (t ∷ ts) h = (rw h refl, row_left removed s ts h)

rows_left :
    (scored : List ScoredMessage) (removed : List ℕ) (ss ts : List ScoredMessage)
    → All (IsFresh scored removed) ss
    → All (λ s. All (IsInOrder removed s) ts) ss
rows_left scored removed [] ts h = tt
rows_left scored removed (s ∷ ss) ts h =
    (row_left removed s ts h.0.2, rows_left scored removed ss ts h.1)

-- An entry that is taken out is in order with the rest.
column_out :
    (removed : List ℕ) (t : ScoredMessage) (ss ts : List ScoredMessage)
    → contains_index removed t.index ≡ true
    → All (λ s. All (IsInOrder removed s) ts) ss
    → All (λ s. All (IsInOrder removed s) (t ∷ ts)) ss
column_out removed t [] ts h hs = tt
column_out removed t (s ∷ ss) ts h hs =
    ((ground (arith, h), hs.0), column_out removed t ss ts h hs.1)

row_sorted :
    (removed : List ℕ) (s : ScoredMessage) (ts : List ScoredMessage)
    → All (λ t. score_leb s t ≡ true) ts
    → All (IsInOrder removed s) ts
row_sorted removed s [] h = tt
row_sorted removed s (t ∷ ts) h = (ground (arith, h.0), row_sorted removed s ts h.1)

pub remove_lowest-AreLowest :
    (scored : List ScoredMessage) (target current : ℕ) (removed : List ℕ) (ss : List ScoredMessage)
    → All (IsFresh scored removed) ss
    → Distinct ss
    → Sorted ss
    → AreLowest (remove_lowest target current removed ss) ss
unfolding remove_lowest
remove_lowest-AreLowest scored target current removed [] fresh distinct sorted = tt
remove_lowest-AreLowest scored target current removed (s ∷ ss) fresh distinct sorted =
    let more = remove_lowest target (current - s.token_count) (s.index ∷ removed) ss in
    let taken : contains_index more s.index ≡ true =
      remove_lowest_keeps s.index target (current - s.token_count) (s.index ∷ removed) ss
        (rw ((nat_beq_iff s.index s.index).1 refl) refl) in
    let later =
      remove_lowest-AreLowest scored target (current - s.token_count) (s.index ∷ removed) ss
        (still-IsFresh scored removed s ss distinct.0 fresh.1) distinct.1 sorted.1 in
    if_ind (λ js. AreLowest js (s ∷ ss)) (leb current target) {x = removed} {y = more}
      (rows_left scored removed (s ∷ ss) (s ∷ ss) fresh)
      ((ground (arith, taken), row_sorted more s ss sorted.0), column_out more s ss ss taken later)

rows_back :
    (removed : List ℕ) (ss ts : List ScoredMessage)
    → All (λ s. All (IsInOrder removed s) (sort_by_score ts)) ss
    → All (λ s. All (IsInOrder removed s) ts) ss
rows_back removed [] ts h = tt
rows_back removed (s ∷ ss) ts h =
    (sort_by_score-All_back (IsInOrder removed s) ts h.0, rows_back removed ss ts h.1)

pub AreLowest-sort_by_score :
    (removed : List ℕ) (ss : List ScoredMessage)
    → AreLowest removed (sort_by_score ss)
    → AreLowest removed ss
AreLowest-sort_by_score removed ss h =
    rows_back removed ss ss
      (sort_by_score-All_back (λ s. All (IsInOrder removed s) (sort_by_score ss)) ss h)
