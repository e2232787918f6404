-- ===== src/Middleware/Auth/Laws.antt =====
-- When a request is let in, and as whom.
use Prim.Native.Char.{Char, code}
use Prim.Native.String.{◌++◌ as ◌⧺◌}
use text.Mathlib.TextEquality.{Char-path}
use text.Mathlib.TextLemmas.{nil-append, cons-append}
use melis.Common.{
  ◌≡◌, refl, sym, ap, ◌∙◌, ◌≢◌, ◌↔◌, inl, inr, String, Bool, true, not, ◌&&◌, Option, some, List,
  [], ◌∷◌, ◌++◌, find, All, nat_beq, nat_beq_iff, string_eq, string_beq_iff, ◌==◌, Bool-cases,
  Option-cases, arith, subst,
}
use mathlib.Core.Path.{ap₂}
use melis.Float.{F64}
use melis.Error.{ok, >>=-eq-ok}
use melis.Config.{ApiKeyEntry, AuthConfig}
use melis.Middleware.Auth.{
  split_space, eq_ignore_ascii_case, bearer_token, ClientIdentity, identity_of, validate,
  auth_middleware,
}

abbrev pub space : Char
space = " "

abbrev pub no_space : String → Bool
no_space String.[] = true
no_space (String.◌∷◌ c s) = not (nat_beq (code c) b' ') && no_space s

split_space-joined :
    (s rest : String)
    → (split_space s).1 ≡ some rest
    → (s ≡ (split_space s).0 ⧺ (String.◌∷◌ space rest)) × (no_space (split_space s).0 ≡ true)
unfolding split_space
split_space-joined String.[] rest e = absurd (ground arith)
split_space-joined (String.◌∷◌ c s) rest e = elim (Bool-cases (nat_beq (code c) b' ')) [
  | inl here ↦
      let same : c ≡ space = Char-path c space ((nat_beq_iff (code c) b' ').0 here) in
      let tail : s ≡ rest = ground arith in
      rw (here, nil-append) (ap₂ (λ d t. String.◌∷◌ d t) same tail, refl)
  | inr later ↦
      let (joined, spaceless) = split_space-joined s rest (ground arith) in
      rw (later, cons-append) (ap (λ t. String.◌∷◌ c t) joined, ground (arith, spaceless))
]

joined-split_space :
    (before rest : String)
    → no_space before ≡ true
    → split_space (before ⧺ (String.◌∷◌ space rest)) ≡ (before, some rest)
unfolding split_space
joined-split_space String.[] rest h = rw nil-append refl
joined-split_space (String.◌∷◌ c s) rest h =
    rw cons-append (ground (arith, joined-split_space s rest))

-- A header is accepted exactly when it is a scheme without a space that is "Bearer" up to ASCII
-- case, one space, and a token that is not empty; the token is then the whole rest of the header,
-- further spaces included.
pub bearer_token_iff :
    (value token : String)
    → (bearer_token (some value) ≡ ok token) ↔ (
        (scheme : String) × (value ≡ scheme ⧺ (String.◌∷◌ space token))
        × (no_space scheme ≡ true)
        × (eq_ignore_ascii_case scheme "Bearer" ≡ true)
        × (token ≢ ""))
unfolding bearer_token
bearer_token_iff value token = (to, from)
  where
    to :
        bearer_token (some value) ≡ ok token
        → (scheme : String) × (value ≡ scheme ⧺ (String.◌∷◌ space token))
          × (no_space scheme ≡ true)
          × (eq_ignore_ascii_case scheme "Bearer" ≡ true)
          × (token ≢ "")
    to e = elim (Option-cases (split_space value).1) [
      | inl one_part ↦ absurd (ground (arith, one_part))
      | inr (rest, found) ↦
          let (joined, spaceless) = split_space-joined value rest found in
          let same : rest ≡ token = ground (arith, found) in
          let bearer : eq_ignore_ascii_case (split_space value).0 "Bearer" ≡ true =
            ground (arith, found) in
          let nonempty : rest ≢ "" = ground (arith, found, string_beq_iff rest "") in
          (
            (split_space value).0,
            subst (λ t. value ≡ (split_space value).0 ⧺ (String.◌∷◌ space t)) same joined,
            spaceless,
            bearer,
            subst (λ t. t ≢ "") same nonempty,
          )
    ]

    from :
        ((scheme : String) × (value ≡ scheme ⧺ (String.◌∷◌ space token))
          × (no_space scheme ≡ true)
          × (eq_ignore_ascii_case scheme "Bearer" ≡ true)
          × (token ≢ ""))
        → bearer_token (some value) ≡ ok token
    from (scheme, joined, spaceless, bearer, nonempty) =
        let parts : split_space value ≡ (scheme, some token) =
          ap split_space joined ∙ joined-split_space scheme token spaceless in
        ground (arith, parts, string_beq_iff token "")

module _ (f : F64) where
  -- The first entry of the list that bears the key.
  pub record IsFirst (keys : List (ApiKeyEntry f)) (token : String) (entry : ApiKeyEntry f)
      : Type 0 where
    pub before : List (ApiKeyEntry f)
    pub after : List (ApiKeyEntry f)
    pub split : keys ≡ before ++ entry ∷ after
    pub others : All (λ e. e.key ≢ token) before
    pub bears : entry.key ≡ token

  find-IsFirst :
      (keys : List (ApiKeyEntry f)) (token : String) (entry : ApiKeyEntry f)
      → find (λ e. e.key == token) keys ≡ some entry
      → IsFirst keys token entry
  find-IsFirst [] token entry e = cc
  find-IsFirst (k ∷ ks) token entry e = elim (Bool-cases (k.key == token)) [
    | inl same ↦
        let chosen : k ≡ entry = ground arith in
        record {
          before = [];
          after = ks;
          split = ap (λ x. x ∷ ks) chosen;
          others = tt;
          bears =
              ap (λ (x : ApiKeyEntry f). x.key) (sym chosen) ∙ (string_beq_iff k.key token).0 same;
        }
    | inr other ↦
        let rest = find-IsFirst ks token entry (ground arith) in
        record {
          before = k ∷ rest.before;
          after = rest.after;
          split = ap (λ x. k ∷ x) rest.split;
          others = (ground (arith, string_beq_iff k.key token), rest.others);
          bears = rest.bears;
        }
  ]

  IsFirst-find :
      (before after : List (ApiKeyEntry f)) (token : String) (entry : ApiKeyEntry f)
      → All (λ e. e.key ≢ token) before
      → entry.key ≡ token
      → find (λ e. e.key == token) (before ++ entry ∷ after) ≡ some entry
  IsFirst-find [] after token entry others bears = ground (arith, string_beq_iff entry.key token)
  IsFirst-find (k ∷ before) after token entry others bears = ground (
    arith,
    string_beq_iff k.key token,
    others.0,
    IsFirst-find before after token entry others.1 bears,
  )

  -- A request is let in as `id` exactly when its header is accepted with some token, and `id` is the
  -- identity of the first configured entry with that key.
  pub auth_middleware_iff :
      (config : AuthConfig f) (header : Option String) (id : ClientIdentity f)
      → (auth_middleware f config header ≡ ok id) ↔ (
          (token : String) × (entry : ApiKeyEntry f) × (bearer_token header ≡ ok token)
          × IsFirst config.api_keys token entry
          × (id ≡ identity_of f entry))
  unfolding auth_middleware validate
  auth_middleware_iff config header id = (to, from)
    where
      to :
          auth_middleware f config header ≡ ok id
          → (token : String) × (entry : ApiKeyEntry f) × (bearer_token header ≡ ok token)
            × IsFirst config.api_keys token entry
            × (id ≡ identity_of f entry)
      to e =
          let (token, got, valid) = >>=-eq-ok (bearer_token header) (validate f config) e in
          elim (Option-cases (find (λ k. k.key == token) config.api_keys)) [
            | inl absent ↦ absurd (ground (arith, absent))
            | inr (entry, found) ↦ (
              token,
              entry,
              got,
              find-IsFirst config.api_keys token entry found,
              ground (arith, found),
            )
          ]

      from :
          ((token : String) × (entry : ApiKeyEntry f) × (bearer_token header ≡ ok token)
            × IsFirst config.api_keys token entry
            × (id ≡ identity_of f entry))
          → auth_middleware f config header ≡ ok id
      from (token, entry, got, first, same) =
          let found : find (λ k. k.key == token) config.api_keys ≡ some entry =
            ap (find (λ k. k.key == token)) first.split
            ∙ IsFirst-find first.before first.after token entry first.others first.bears in
          ground (arith, got, found, same)
