-- ===== src/Compactor/Semantic/Loop.antt =====
-- The loop of the semantic compactor over the entries by their score: what is left over, and its cost.
use melis.Common.{
  ℕ, ◌+◌, ◌-◌, ◌≤◌, ◌≡◌, refl, sym, subst, inl, inr, ◌⊎◌, Bool, true, false, not, List, [], ◌∷◌, In,
  All, All-keep, keep, ltb, leb, leb→le, nat_beq, nat_beq_iff, if_ind, arith, Bool-cases,
  if◌then◌else◌,
}
use melis.Compactor.{message_tokens, total_tokens, contains_index}
use melis.Compactor.Semantic.{ScoredMessage, score_leb, insert_sorted, sort_by_score, remove_lowest}
use melis.Compactor.Semantic.Entries.{Without, messages_of}

abbrev pub left_over : List ℕ → List ScoredMessage → List ScoredMessage
left_over removed ss = keep (λ s. not (contains_index removed s.index)) ss

abbrev pub cost : List ScoredMessage → ℕ
cost ss = total_tokens (messages_of ss)

-- The entries have different indices, and the tokens of their messages.
abbrev pub Counted : ScoredMessage → Type 0
Counted s = s.token_count ≡ message_tokens s.message

abbrev pub Distinct : List ScoredMessage → Type 0
Distinct [] = Unit
Distinct (s ∷ ss) = Without s.index ss × Distinct ss

pub left_over-nil : (ss : List ScoredMessage) → cost (left_over [] ss) ≤ cost ss
left_over-nil [] = omega arith
left_over-nil (s ∷ ss) = omega (arith, left_over-nil ss)

left_over-cons-le :
    (i : ℕ) (removed : List ℕ) (ss : List ScoredMessage)
    → cost (left_over (i ∷ removed) ss) ≤ cost (left_over removed ss)
left_over-cons-le i removed [] = omega arith
left_over-cons-le i removed (s ∷ ss) = ground (arith, left_over-cons-le i removed ss)

left_over-cons-head :
    (removed : List ℕ) (s : ScoredMessage) (ss : List ScoredMessage)
    → contains_index removed s.index ≡ false
    → cost (left_over (s.index ∷ removed) (s ∷ ss)) + message_tokens s.message
      ≤ cost (left_over removed (s ∷ ss))
left_over-cons-head removed s ss fresh =
    rw ((nat_beq_iff s.index s.index).1 refl)
      (rw fresh (omega (arith, left_over-cons-le s.index removed ss)))

-- Taking out one more entry saves its tokens.
left_over-cons-saves :
    (removed : List ℕ) (s : ScoredMessage) (ss : List ScoredMessage)
    → In s ss
    → contains_index removed s.index ≡ false
    → cost (left_over (s.index ∷ removed) ss) + message_tokens s.message
      ≤ cost (left_over removed ss)
left_over-cons-saves removed s [] member fresh = absurd member
left_over-cons-saves removed s (t ∷ ts) (inl same) fresh =
    subst
      (λ x.
        contains_index removed x.index ≡ false
        → cost (left_over (x.index ∷ removed) (t ∷ ts)) + message_tokens x.message
          ≤ cost (left_over removed (t ∷ ts)))
      (sym same) (left_over-cons-head removed t ts) fresh
left_over-cons-saves removed s (t ∷ ts) (inr later) fresh =
    ground (arith, left_over-cons-saves removed s ts later fresh)

pub sort-All :
    (P : ScoredMessage → Type 0) (s : ScoredMessage) (ss : List ScoredMessage)
    → P s
    → All P ss
    → All P (insert_sorted s ss)
sort-All P s [] h hs = (h, hs)
sort-All P s (t ∷ ts) h hs =
    if_ind (All P) (score_leb s t) {x = s ∷ t ∷ ts} {y = t ∷ insert_sorted s ts} (h, hs)
      (hs.0, sort-All P s ts h hs.1)

pub sort_by_score-All :
    (P : ScoredMessage → Type 0) (ss : List ScoredMessage) → All P ss → All P (sort_by_score ss)
sort_by_score-All P [] h = tt
sort_by_score-All P (s ∷ ss) h = sort-All P s (sort_by_score ss) h.0 (sort_by_score-All P ss h.1)

insert_sorted-All_back :
    (P : ScoredMessage → Type 0) (s : ScoredMessage) (ss : List ScoredMessage)
    → All P (insert_sorted s ss)
    → P s × All P ss
insert_sorted-All_back P s [] h = h
insert_sorted-All_back P s (t ∷ ts) h = elim (Bool-cases (score_leb s t)) [
  | inl first ↦
      subst (λ b. All P (if b then s ∷ t ∷ ts else t ∷ insert_sorted s ts) → P s × All P (t ∷ ts))
        (sym first) (λ k. k) h
  | inr after ↦
      subst (λ b. All P (if b then s ∷ t ∷ ts else t ∷ insert_sorted s ts) → P s × All P (t ∷ ts))
        (sym after) (λ k. let (a, b) = insert_sorted-All_back P s ts k.1 in (a, (k.0, b))) h
]

pub sort_by_score-All_back :
    (P : ScoredMessage → Type 0) (ss : List ScoredMessage) → All P (sort_by_score ss) → All P ss
sort_by_score-All_back P [] h = tt
sort_by_score-All_back P (s ∷ ss) h =
    let (a, b) = insert_sorted-All_back P s (sort_by_score ss) h in
    (a, sort_by_score-All_back P ss b)

apart : (s t : ScoredMessage) → nat_beq t.index s.index ≡ false → nat_beq s.index t.index ≡ false
apart s t h = ground arith

insert_sorted-Distinct :
    (s : ScoredMessage) (ss : List ScoredMessage)
    → Without s.index ss
    → Distinct ss
    → Distinct (insert_sorted s ss)
insert_sorted-Distinct s [] out distinct = (tt, tt)
insert_sorted-Distinct s (t ∷ ts) out distinct =
    if_ind Distinct (score_leb s t) {x = s ∷ t ∷ ts} {y = t ∷ insert_sorted s ts} (out, distinct)
      (
        sort-All (λ x. nat_beq x.index t.index ≡ false) s ts (apart s t out.0) distinct.0,
        insert_sorted-Distinct s ts out.1 distinct.1,
      )

pub sort_by_score-Distinct : (ss : List ScoredMessage) → Distinct ss → Distinct (sort_by_score ss)
sort_by_score-Distinct [] h = tt
sort_by_score-Distinct (s ∷ ss) h =
    insert_sorted-Distinct s (sort_by_score ss)
      (sort_by_score-All (λ x. nat_beq x.index s.index ≡ false) ss h.0)
      (sort_by_score-Distinct ss h.1)

-- What the loop may still take out.
abbrev pub IsFresh : List ScoredMessage → List ℕ → ScoredMessage → Type 0
IsFresh scored removed s = In s scored × Counted s × (contains_index removed s.index ≡ false)

pub still-IsFresh :
    (scored : List ScoredMessage) (removed : List ℕ) (s : ScoredMessage) (ss : List ScoredMessage)
    → Without s.index ss
    → All (IsFresh scored removed) ss
    → All (IsFresh scored (s.index ∷ removed)) ss
still-IsFresh scored removed s [] out h = tt
still-IsFresh scored removed s (t ∷ ts) out ((member, counted, fresh), rest) =
    ((member, counted, rw (apart s t out.0) fresh), still-IsFresh scored removed s ts out.1 rest)

pub remove_lowest_keeps :
    (j target current : ℕ) (removed : List ℕ) (ss : List ScoredMessage)
    → contains_index removed j ≡ true
    → contains_index (remove_lowest target current removed ss) j ≡ true
unfolding remove_lowest
remove_lowest_keeps j target current removed [] h = h
remove_lowest_keeps j target current removed (s ∷ ss) h =
    if_ind (λ js. contains_index js j ≡ true) (leb current target) {x = removed} h
      (remove_lowest_keeps j target (current - s.token_count) (s.index ∷ removed) ss (ground arith))

-- With these indices taken out the target is met, or all of the entries are out.
abbrev pub IsMet : List ScoredMessage → ℕ → List ScoredMessage → List ℕ → Type 0
IsMet scored target ss removed =
    (cost (left_over removed scored) ≤ target) ⊎ All (λ s. contains_index removed s.index ≡ true) ss

pub remove_lowest-IsMet :
    (scored : List ScoredMessage) (target current : ℕ) (removed : List ℕ) (ss : List ScoredMessage)
    → cost (left_over removed scored) ≤ current
    → All (IsFresh scored removed) ss
    → Distinct ss
    → IsMet scored target ss (remove_lowest target current removed ss)
unfolding remove_lowest
remove_lowest-IsMet scored target current removed [] h fresh distinct = inr tt
remove_lowest-IsMet scored target current removed (s ∷ ss) h ((member, counted, new), rest)
      distinct =
    let more = remove_lowest target (current - s.token_count) (s.index ∷ removed) ss in
    elim (Bool-cases (leb current target)) [
      | inl met ↦
          subst (λ b. IsMet scored target (s ∷ ss) (if b then removed else more)) (sym met)
            (inl (omega (arith, h, leb→le current target met)))
      | inr over ↦
          let saved = left_over-cons-saves removed s scored member new in
          let later =
            remove_lowest-IsMet scored target (current - s.token_count) (s.index ∷ removed) ss
              (omega (arith, h, saved, counted)) (still-IsFresh scored removed s ss distinct.0 rest)
              distinct.1 in
          subst (λ b. IsMet scored target (s ∷ ss) (if b then removed else more)) (sym over)
            (elim later [
              | inl met ↦ inl met
              | inr all ↦ inr (
                remove_lowest_keeps s.index target (current - s.token_count) (s.index ∷ removed) ss
                    (rw ((nat_beq_iff s.index s.index).1 refl) refl),
                all,
              )
            ])
    ]

pub keep-Distinct :
    (p : ScoredMessage → Bool) (ss : List ScoredMessage) → Distinct ss → Distinct (keep p ss)
keep-Distinct p [] h = tt
keep-Distinct p (s ∷ ss) h =
    if_ind Distinct (p s) {x = s ∷ keep p ss} {y = keep p ss}
      (All-keep (λ t. nat_beq t.index s.index ≡ false) p ss h.0, keep-Distinct p ss h.1)
      (keep-Distinct p ss h.1)

-- What holds of all that are kept holds of the first, if it is kept, and of the rest.
pub All-front :
    (P : ScoredMessage → Type 0) (b : Bool) (s : ScoredMessage) (ss : List ScoredMessage)
    → All P (if b then s ∷ ss else ss)
    → (b ≡ true → P s) × All P ss
All-front P true s ss h = (λ e. h.0, h.1)
All-front P false s ss h = (λ e. cc, h)

pub members :
    (ss : List ScoredMessage) (all : List ScoredMessage)
    → ((s : ScoredMessage) → In s ss → In s all)
    → All Counted ss
    → All (IsFresh all []) ss
members [] all sub h = tt
members (s ∷ ss) all sub h =
    ((sub s (inl refl), h.0, refl), members ss all (λ t m. sub t (inr m)) h.1)

pub at_least : (a b : ℕ) → ltb a b ≡ false → b ≤ a
at_least a b h = ground arith
