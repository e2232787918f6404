-- ===== src/Compactor/Semantic/Keeps.antt =====
-- What the semantic compactor may take out: the messages that it protects.
use melis.Common.{
  ℕ, ◌≡◌, refl, sym, ◌∙◌, subst, true, false, not, none, some, List, [], In, keep, get_elem?,
  sum_of, ltb, leb, if_ind, arith, In-keep_of,
}
use melis.Float.{F64}
use melis.Config.{CompactorConfig}
use melis.Compactor.{CompactMessage, total_tokens, contains_index, last_user_from, untouched}
use melis.Compactor.Text.{Unicode}
use melis.Compactor.Keeps.{At, At-In, Returns}
use melis.Compactor.Semantic.{
  ScoredMessage, sort_by_score, remove_lowest, is_guarded, score_messages, with_messages,
  trim_to_budget, query_terms, content_at, score_all, budget, compact,
}
use melis.Compactor.Semantic.Entries.{
  get_elem?-At, Without, sort_by_score-Without, remove_lowest_miss, messages_of, In-map_message,
  protected_stay_out, protected_scored,
}

module _ (f : F64) (u : Unicode) where
  Returns-trim_to_budget :
      (messages : List CompactMessage) (target : ℕ) (scored : List ScoredMessage)
      (s : ScoredMessage)
      → In s scored
      → s.is_protected ≡ true
      → Without s.index (keep (λ t. not t.is_protected) scored)
      → Returns f u s.message (trim_to_budget f u messages target scored)
  unfolding trim_to_budget
  Returns-trim_to_budget messages target scored s member guarded others =
      let removable = sort_by_score (keep (λ t. not t.is_protected) scored) in
      let removed = remove_lowest target (total_tokens messages) [] removable in
      let spared : contains_index removed s.index ≡ false =
        remove_lowest_miss s.index target (total_tokens messages) [] removable refl
          (sort_by_score-Without s.index _ others) in
      let stays : not (contains_index removed s.index) ≡ true = ground (arith, spared) in
      if_ind (Returns f u s.message)
        (leb target
          (sum_of (λ (t : ScoredMessage). t.token_count) (keep (λ t. t.is_protected) scored)))
        {x = with_messages f u messages (messages_of (keep (λ t. t.is_protected) scored))}
        {y = with_messages f u messages
          (messages_of (keep (λ t. not (contains_index removed t.index)) scored))}
        (In-map_message s _ (In-keep_of (λ t. t.is_protected) s scored member guarded))
        (In-map_message s _
          (In-keep_of (λ t. not (contains_index removed t.index)) s scored member stays))

  -- A protected message is never lost nor changed: on every path of the semantic `compact`, the
  -- message at an index is returned if it is a system message, the last one of the user, or, where
  -- the configuration preserves them, one with a critical marker.
  pub compact_keeps_guarded :
      (config : CompactorConfig f) (messages : List CompactMessage) (j : ℕ) (m : CompactMessage)
      → get_elem? messages j ≡ some m
      → is_guarded f u config (last_user_from 0 messages none) j m ≡ true
      → Returns f u m (compact f u messages config)
  unfolding compact score_all
  compact_keeps_guarded config messages j m got guarded =
      let last_user = last_user_from 0 messages none in
      let terms = query_terms f u (content_at messages last_user) in
      let scored = score_messages f u config last_user terms 0 messages in
      let at : At 0 messages j m =
        subst (λ k. At 0 messages k m) (omega arith) (get_elem?-At 0 messages j m got) in
      let (s, member, index, is_m, flag) =
        protected_scored f u config last_user terms 0 messages j m at in
      let others = protected_stay_out f u config last_user terms 0 messages j m at guarded in
      let returned =
        Returns-trim_to_budget messages (budget f u config messages) scored s member
          (flag ∙ guarded)
          (subst (λ k. Without k (keep (λ t. not t.is_protected) scored)) (sym index) others) in
      if_ind (Returns f u m) (ltb (total_tokens messages) config.token_threshold)
        {x = untouched f u messages}
        {y = trim_to_budget f u messages (budget f u config messages) scored}
        (At-In 0 messages j m at)
        (subst
          (λ n. Returns f u n (trim_to_budget f u messages (budget f u config messages) scored))
          is_m returned)
