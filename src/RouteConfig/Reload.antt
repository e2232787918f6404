-- ===== src/RouteConfig/Reload.antt =====
-- Hot reload: which file the served configuration comes from.
use melis.Common.{
  ◌≡◌, refl, ap, ◌∙◌, ◌≢◌, ◌⊎◌, inl, inr, String, true, some, List, [], ◌∷◌, All, ◌++◌, is_empty,
  arith, Bool-cases,
}
use melis.Float.{F64}
use melis.RouteConfig.{
  RouteConfigFile, RouteResolver, validate, new_resolver, Loaded, loaded, unreadable, start,
  try_reload,
}

is_empty-nil : {A : Type 0} (xs : List A) → is_empty xs ≡ true → xs ≡ []
is_empty-nil [] e = refl
is_empty-nil (x ∷ xs) e = cc

module _ (f : F64) (upper : String → String) where
  -- The file changes that `reload_loop` acts on, in order.
  abbrev pub reloads : RouteResolver f upper → List (Loaded f upper) → RouteResolver f upper
  reloads current [] = current
  reloads current (l ∷ ls) = reloads (try_reload f upper current l) ls

  -- A file that is unreadable or does not pass `validate`.
  abbrev pub IsRejected : Loaded f upper → Type 0
  IsRejected (loaded config) = validate f upper config ≢ []
  IsRejected (unreadable e) = Unit

  -- `config` is the last valid configuration of a sequence of files.
  abbrev pub IsLastValid : RouteConfigFile f → List (Loaded f upper) → Type 0
  IsLastValid config files =
      (before : List (Loaded f upper)) × (after : List (Loaded f upper)) × (files
        ≡ before ++ (loaded config ∷ after))
      × (validate f upper config ≡ [])
      × All IsRejected after

  try_reload-cases :
      (current : RouteResolver f upper) (l : Loaded f upper)
      → (IsRejected l × (try_reload f upper current l ≡ current))
        ⊎ ((config : RouteConfigFile f) × (l ≡ loaded config)
            × (validate f upper config ≡ [])
            × (try_reload f upper current l ≡ new_resolver f upper config))
  unfolding try_reload
  try_reload-cases current (unreadable e) = inl (tt, refl)
  try_reload-cases current (loaded config) =
      elim (Bool-cases (is_empty (validate f upper config))) [
        | inl valid ↦
            inr (config, refl, is_empty-nil (validate f upper config) valid, (rw valid refl))
        | inr invalid ↦ inl (λ e. absurd (ground (arith, invalid, e)), (rw invalid refl))
      ]

  reloads-cases :
      (current : RouteResolver f upper) (files : List (Loaded f upper))
      → (All IsRejected files × (reloads current files ≡ current))
        ⊎ ((config : RouteConfigFile f) × IsLastValid config files
            × (reloads current files ≡ new_resolver f upper config))
  reloads-cases current [] = inl (tt, refl)
  reloads-cases current (l ∷ ls) = elim (reloads-cases (try_reload f upper current l) ls) [
    | inr (config, (before, after, split, valid, rejected), served) ↦
        inr (config, (l ∷ before, after, ap (λ xs. l ∷ xs) split, valid, rejected), served)
    | inl (rejected, kept) ↦ elim (try_reload-cases current l) [
      | inl (refused, same) ↦ inl ((refused, rejected), kept ∙ same)
      | inr (config, is_l, valid, swapped) ↦
          inr (config, ([], ls, ap (λ x. x ∷ ls) is_l, valid, rejected), kept ∙ swapped)
    ]
  ]

  start-cases :
      (first : Loaded f upper) (resolver : RouteResolver f upper)
      → start f upper first ≡ some resolver
      → (config : RouteConfigFile f) × (first ≡ loaded config)
        × (validate f upper config ≡ [])
        × (resolver ≡ new_resolver f upper config)
  unfolding start
  start-cases (unreadable e) resolver started = cc
  start-cases (loaded config) resolver started =
      elim (Bool-cases (is_empty (validate f upper config))) [
        | inl valid ↦ (
          config,
          refl,
          is_empty-nil (validate f upper config) valid,
          ground (arith, valid, started),
        )
        | inr invalid ↦ absurd (ground (arith, invalid, started))
      ]

  -- Once the gateway has started, whatever the watched file holds at each of the reloads that follow,
  -- the resolver in use is that of the last valid configuration among the file at the start and the
  -- reloads: a broken file never replaces it, and a valid one always does.
  pub reloads-IsLastValid :
      (first : Loaded f upper) (files : List (Loaded f upper)) (resolver : RouteResolver f upper)
      → start f upper first ≡ some resolver
      → (config : RouteConfigFile f) × IsLastValid config (first ∷ files)
        × (reloads resolver files ≡ new_resolver f upper config)
  reloads-IsLastValid first files resolver started = elim (reloads-cases resolver files) [
    | inr (config, (before, after, split, valid, rejected), served) ↦
        (config, (first ∷ before, after, ap (λ xs. first ∷ xs) split, valid, rejected), served)
    | inl (rejected, kept) ↦
        let (config, is_first, valid, made) = start-cases first resolver started in
        (config, ([], files, ap (λ x. x ∷ files) is_first, valid, rejected), kept ∙ made)
  ]
