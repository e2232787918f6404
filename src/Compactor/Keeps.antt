-- ===== src/Compactor/Keeps.antt =====
-- Which messages survive a compaction.
use melis.Common.{
  ℕ, suc, ◌-◌, ◌≤◌, ◌<◌, ◌≡◌, refl, subst, ◌⊎◌, inl, inr, String, Bool, true, false, not, ◌&&◌,
  List, [], ◌∷◌, In, length, ltb, leb, nat_beq, if◌then◌else◌, if_ind, arith,
}
use melis.Float.{F64}
use melis.Config.{CompactorConfig}
use melis.Compactor.{
  CompactMessage, total_tokens, is_system, contains_index, keep_at, indices, windowed,
  eligible_indices, take_until, CompactionResult, without_stop_words, finish, guarded,
  prune_to_target, prune_oldest, untouched, compact, target_tokens,
}
use melis.Compactor.Text.{Unicode}

-- `m` stands at index `j` of a list whose first index is `i`.
abbrev pub At : ℕ → List CompactMessage → ℕ → CompactMessage → Type 0
At i [] j m = ⊥
At i (n ∷ ns) j m = ((j ≡ i) × (m ≡ n)) ⊎ At (suc i) ns j m

In-At : (i : ℕ) (ms : List CompactMessage) (m : CompactMessage) → In m ms → (j : ℕ) × At i ms j m
In-At i [] m h = absurd h
In-At i (n ∷ ns) m (inl e) = (i, inl (refl, e))
In-At i (n ∷ ns) m (inr h) = let (j, at) = In-At (suc i) ns m h in (j, inr at)

pub At-In : (i : ℕ) (ms : List CompactMessage) (j : ℕ) (m : CompactMessage) → At i ms j m → In m ms
At-In i [] j m h = absurd h
At-In i (n ∷ ns) j m (inl (e, same)) = inl same
At-In i (n ∷ ns) j m (inr h) = inr (At-In (suc i) ns j m h)

pub At-le : (i : ℕ) (ms : List CompactMessage) (j : ℕ) (m : CompactMessage) → At i ms j m → i ≤ j
At-le i [] j m h = absurd h
At-le i (n ∷ ns) j m (inl (e, same)) = omega arith
At-le i (n ∷ ns) j m (inr h) = omega (arith, At-le (suc i) ns j m h)

indices_before :
    (p : ℕ → CompactMessage → Bool) (i : ℕ) (ms : List CompactMessage) (j : ℕ)
    → j < i
    → contains_index (indices p i ms) j ≡ false
indices_before p i [] j h = refl
indices_before p i (m ∷ ms) j h =
    let later = indices_before p (suc i) ms j (omega arith) in
    if_ind (λ js. contains_index js j ≡ false) (p i m) (ground (arith, later)) later

indices_miss :
    (p : ℕ → CompactMessage → Bool) (i : ℕ) (ms : List CompactMessage) (j : ℕ) (m : CompactMessage)
    → At i ms j m
    → p j m ≡ false
    → contains_index (indices p i ms) j ≡ false
indices_miss p i [] j m h miss = absurd h
indices_miss p i (n ∷ ns) j m (inl (e, same)) miss =
    let out : p i n ≡ false = cc in rw out (indices_before p (suc i) ns j (omega arith))
indices_miss p i (n ∷ ns) j m (inr h) miss =
    let later = indices_miss p (suc i) ns j m h miss in
    let after = At-le (suc i) ns j m h in
    if_ind (λ js. contains_index js j ≡ false) (p i n) (ground (arith, later, after)) later

keep_at_hit :
    (p : ℕ → CompactMessage → Bool) (i : ℕ) (ms : List CompactMessage) (j : ℕ) (m : CompactMessage)
    → At i ms j m
    → p j m ≡ true
    → In m (keep_at p i ms)
keep_at_hit p i [] j m h hit = absurd h
keep_at_hit p i (n ∷ ns) j m (inl (e, same)) hit =
    let kept : p i n ≡ true = cc in rw kept (inl same)
keep_at_hit p i (n ∷ ns) j m (inr h) hit =
    let later = keep_at_hit p (suc i) ns j m h hit in
    if_ind (λ ks. In m ks) (p i n) (inr later) later

take_until_miss :
    (working : List CompactMessage) (target : ℕ) (taken eligible : List ℕ) (j : ℕ)
    → contains_index taken j ≡ false
    → contains_index eligible j ≡ false
    → contains_index (take_until working target taken eligible) j ≡ false
unfolding take_until
take_until_miss working target taken [] j no_taken no_eligible = no_taken
take_until_miss working target taken (idx ∷ rest) j no_taken no_eligible =
    let head : nat_beq idx j ≡ false = ground arith in
    let now : contains_index (idx ∷ taken) j ≡ false = ground arith in
    if_ind (λ js. contains_index js j ≡ false)
      (leb (total_tokens (keep_at (λ i m. not (contains_index (idx ∷ taken) i)) 0 working)) target)
      {x = idx ∷ taken} now (take_until_miss working target (idx ∷ taken) rest j now (ground arith))

In-windowed :
    (n : ℕ) (ms : List CompactMessage) (m : CompactMessage)
    → is_system m ≡ true
    → In m ms
    → In m (windowed n ms)
unfolding windowed
In-windowed n ms m system h =
    let (j, at) = In-At 0 ms m h in
    if_ind (λ ks. In m ks) _ {y = ms} (keep_at_hit _ 0 ms j m at (ground (arith, system))) h

eligible_indices_miss :
    (ms : List CompactMessage) (j : ℕ) (m : CompactMessage)
    → is_system m ≡ true
    → At 0 ms j m
    → contains_index (eligible_indices ms) j ≡ false
unfolding eligible_indices
eligible_indices_miss ms j m system at = indices_miss _ 0 ms j m at (ground (arith, system))

not-eq-true : (b : Bool) → b ≡ false → not b ≡ true
not-eq-true b h = ground arith

module _ (f : F64) (u : Unicode) where
  -- `m` is among the messages returned.
  abbrev pub Returns : CompactMessage → CompactionResult f u → Type 0
  Returns m r = In m r.messages

  without_stop_words-At :
      (stop_words : List String) (eligible : List ℕ) (i : ℕ) (ms : List CompactMessage) (j : ℕ)
      (m : CompactMessage)
      → At i ms j m
      → contains_index eligible j ≡ false
      → At i (without_stop_words f u stop_words eligible i ms) j m
  unfolding without_stop_words
  without_stop_words-At stop_words eligible i [] j m h miss = absurd h
  without_stop_words-At stop_words eligible i (n ∷ ns) j m (inl (e, same)) miss =
      let out : contains_index eligible i ≡ false =
        subst (λ k. contains_index eligible k ≡ false) e miss in
      rw out (inl (e, same))
  without_stop_words-At stop_words eligible i (n ∷ ns) j m (inr h) miss =
      inr (without_stop_words-At stop_words eligible (suc i) ns j m h miss)

  In-guarded :
      (messages kept : List CompactMessage) (pruned : ℕ) (b : Bool) (tokens : ℕ)
      (m : CompactMessage)
      → In m kept
      → Returns m (guarded f u messages pruned b tokens kept)
  unfolding guarded
  In-guarded messages [] pruned b tokens m h = absurd h
  In-guarded messages (n ∷ ns) pruned b tokens m h = h

  In-finish :
      (messages kept : List CompactMessage) (pruned : ℕ) (m : CompactMessage)
      → In m kept
      → Returns m (finish f u messages pruned kept)
  unfolding finish
  In-finish messages [] pruned m h = absurd h
  In-finish messages (n ∷ ns) pruned m h = h

  In-prune_to_target :
      (config : CompactorConfig f) (messages window : List CompactMessage) (m : CompactMessage)
      → is_system m ≡ true
      → In m window
      → Returns m (prune_to_target f u config messages window)
  unfolding prune_to_target prune_oldest
  In-prune_to_target config messages window m system h =
      let eligible = eligible_indices window in
      let working = without_stop_words f u config.stop_words eligible 0 window in
      let (j, at) = In-At 0 window m h in
      let protected = eligible_indices_miss window j m system at in
      let stays = without_stop_words-At config.stop_words eligible 0 window j m at protected in
      if_ind (Returns m) _ (In-guarded messages working _ true _ m (At-In 0 working j m stays)) (
        In-finish messages _ _ m (
          keep_at_hit _ 0 working j m stays (
            not-eq-true _
              (take_until_miss working (target_tokens f u messages) [] eligible j refl protected))))

  -- A system message is never lost nor changed: on every path of `compact`, each one given is among
  -- the messages returned.
  pub compact_keeps_system :
      (config : CompactorConfig f) (messages : List CompactMessage) (m : CompactMessage)
      → is_system m ≡ true
      → In m messages
      → Returns m (compact f u messages config)
  unfolding compact
  compact_keeps_system config messages m system h =
      let window = windowed config.max_history_messages messages in
      let in_window = In-windowed config.max_history_messages messages m system h in
      let pruned = length messages - length window in
      if_ind (Returns m)
        (ltb (total_tokens messages) config.token_threshold
          && leb (length messages) config.max_history_messages)
        {x = untouched f u messages}
        {y = if ltb (total_tokens window) config.token_threshold
          then guarded f u messages pruned (ltb 0 pruned) (total_tokens window) window
          else prune_to_target f u config messages window}
        h
        (if_ind (Returns m) (ltb (total_tokens window) config.token_threshold)
          {x = guarded f u messages pruned (ltb 0 pruned) (total_tokens window) window}
          {y = prune_to_target f u config messages window}
          (In-guarded messages window pruned (ltb 0 pruned) _ m in_window)
          (In-prune_to_target config messages window m system in_window))
