-- ===== src/Compactor/Semantic/Entries.antt =====
-- The scored messages: their order, the indices removed, and the protected ones.
use melis.Common.{
  ℕ, zero, suc, ◌+◌, ◌-◌, ◌<◌, ◌≡◌, refl, sym, ap, subst, inl, inr, String, Bool, true, false, not,
  Option, some, List, [], ◌∷◌, In, All, map, keep, get_elem?, leb, nat_beq, if_ind, arith,
  Bool-cases,
}
use melis.Float.{F64}
use melis.Config.{CompactorConfig}
use melis.Compactor.{CompactMessage, contains_index}
use melis.Compactor.Text.{Unicode}
use melis.Compactor.Keeps.{At, At-le}
use melis.Compactor.Semantic.{
  ScoredMessage, score_leb, insert_sorted, sort_by_score, remove_lowest, is_guarded, score_messages,
}

pub get_elem?-At :
    (i : ℕ) (ms : List CompactMessage) (j : ℕ) (m : CompactMessage)
    → get_elem? ms j ≡ some m
    → At i ms (i + j) m
get_elem?-At i [] j m e = cc
get_elem?-At i (n ∷ ns) zero m e = inl (omega arith, cc)
get_elem?-At i (n ∷ ns) (suc j) m e =
    inr (subst (λ k. At (suc i) ns k m) (omega arith) (get_elem?-At (suc i) ns j m e))

-- No entry of the list has the index `j`.
abbrev pub Without : ℕ → List ScoredMessage → Type 0
Without j ss = All (λ s. nat_beq s.index j ≡ false) ss

insert_sorted-Without :
    (j : ℕ) (s : ScoredMessage) (ss : List ScoredMessage)
    → nat_beq s.index j ≡ false
    → Without j ss
    → Without j (insert_sorted s ss)
insert_sorted-Without j s [] h hs = (h, tt)
insert_sorted-Without j s (t ∷ ts) h hs =
    if_ind (Without j) (score_leb s t) {x = s ∷ t ∷ ts} {y = t ∷ insert_sorted s ts} (h, hs)
      (hs.0, insert_sorted-Without j s ts h hs.1)

pub sort_by_score-Without :
    (j : ℕ) (ss : List ScoredMessage) → Without j ss → Without j (sort_by_score ss)
sort_by_score-Without j [] h = tt
sort_by_score-Without j (s ∷ ss) h =
    insert_sorted-Without j s (sort_by_score ss) h.0 (sort_by_score-Without j ss h.1)

pub remove_lowest_miss :
    (j target : ℕ) (current : ℕ) (removed : List ℕ) (ss : List ScoredMessage)
    → contains_index removed j ≡ false
    → Without j ss
    → contains_index (remove_lowest target current removed ss) j ≡ false
unfolding remove_lowest
remove_lowest_miss j target current removed [] kept h = kept
remove_lowest_miss j target current removed (s ∷ ss) kept h =
    if_ind (λ js. contains_index js j ≡ false) (leb current target) {x = removed} kept
      (remove_lowest_miss j target (current - s.token_count) (s.index ∷ removed) ss
        (ground (arith, h.0, kept)) h.1)

Without-keep-cons :
    (p : ScoredMessage → Bool) (j : ℕ) (s : ScoredMessage) (ss : List ScoredMessage)
    → (p s ≡ true → nat_beq s.index j ≡ false)
    → Without j (keep p ss)
    → Without j (keep p (s ∷ ss))
Without-keep-cons p j s ss head rest = elim (Bool-cases (p s)) [
  | inl kept ↦ rw kept (head kept, rest)
  | inr out ↦ rw out rest
]

abbrev pub messages_of : List ScoredMessage → List CompactMessage
messages_of ss = map (λ s. s.message) ss

pub In-map_message :
    (s : ScoredMessage) (ss : List ScoredMessage) → In s ss → In s.message (messages_of ss)
In-map_message s [] h = absurd h
In-map_message s (t ∷ ts) (inl e) = inl (ap (λ (x : ScoredMessage). x.message) e)
In-map_message s (t ∷ ts) (inr h) = inr (In-map_message s ts h)

module _ (f : F64) (u : Unicode) (config : CompactorConfig f) (last_user : Option ℕ)
    (terms : List String) where
  pub messages_of-score_messages :
      (i : ℕ) (ms : List CompactMessage)
      → messages_of (score_messages f u config last_user terms i ms) ≡ ms
  messages_of-score_messages i [] = refl
  messages_of-score_messages i (m ∷ ms) = ap (λ ns. m ∷ ns) (messages_of-score_messages (suc i) ms)

  later_differ :
      (p : ScoredMessage → Bool) (i : ℕ) (ms : List CompactMessage) (j : ℕ)
      → j < i
      → Without j (keep p (score_messages f u config last_user terms i ms))
  later_differ p i [] j h = tt
  later_differ p i (m ∷ ms) j h =
      Without-keep-cons p j _ (score_messages f u config last_user terms (suc i) ms)
        (λ kept. ground arith) (later_differ p (suc i) ms j (omega arith))

  pub protected_stay_out :
      (i : ℕ) (ms : List CompactMessage) (j : ℕ) (m : CompactMessage)
      → At i ms j m
      → is_guarded f u config last_user j m ≡ true
      → Without j (keep (λ s. not s.is_protected) (score_messages f u config last_user terms i ms))
  protected_stay_out i [] j m h guarded = absurd h
  protected_stay_out i (n ∷ ns) j m (inl (e, same)) guarded =
      let head : is_guarded f u config last_user i n ≡ true = cc in
      rw head (later_differ (λ s. not s.is_protected) (suc i) ns j (omega arith))
  protected_stay_out i (n ∷ ns) j m (inr h) guarded =
      let after = At-le (suc i) ns j m h in
      Without-keep-cons (λ s. not s.is_protected) j _
        (score_messages f u config last_user terms (suc i) ns) (λ kept. ground (arith, after))
        (protected_stay_out (suc i) ns j m h guarded)

  pub protected_scored :
      (i : ℕ) (ms : List CompactMessage) (j : ℕ) (m : CompactMessage)
      → At i ms j m
      → (s : ScoredMessage) × In s (score_messages f u config last_user terms i ms)
        × (s.index ≡ j)
        × (s.message ≡ m)
        × (s.is_protected ≡ is_guarded f u config last_user j m)
  protected_scored i [] j m h = absurd h
  protected_scored i (n ∷ ns) j m (inl (e, same)) = (_, inl refl, sym e, sym same, cc)
  protected_scored i (n ∷ ns) j m (inr h) =
      let (s, member, at, is_m, flag) = protected_scored (suc i) ns j m h in
      (s, inr member, at, is_m, flag)
