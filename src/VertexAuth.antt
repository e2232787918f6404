-- ===== src/VertexAuth.antt =====
-- src/vertex_auth.rs: the cache of Google's credentials. The discovery of a provider of tokens, and
-- what such a provider answers, are `gcp_auth`'s and parameters here, over a world `W`.
mod Tests
use melis.Common.{◌≡◌, refl, String, Option, none, some, ◌⊎◌, inl, inr}

-- The `OnceCell`.
pub record VertexTokenCache (P : Type 0) : Type 0 where
  pub provider : Option P

abbrev pub new_cache : {P : Type 0} → VertexTokenCache P
new_cache = record { provider = none }

module _ {P W : Type 0} (discover : W → W × (String ⊎ P))
    (token : P → W → W × (String ⊎ String)) where
  -- `get_or_try_init`: a failed discovery leaves the cell empty.
  abbrev discovered : VertexTokenCache P → W × (String ⊎ P) → W × VertexTokenCache P × (String ⊎ P)
  discovered cache (w, inl e) = (w, cache, inl e)
  discovered cache (w, inr p) = (w, record { provider = some p }, inr p)

  abbrev get_or_try_init : VertexTokenCache P → Option P → W → W × VertexTokenCache P × (String ⊎ P)
  get_or_try_init cache (some p) w = (w, cache, inr p)
  get_or_try_init cache none w = discovered cache (discover w)

  abbrev token_of :
      W × VertexTokenCache P × (String ⊎ P) → W × VertexTokenCache P × (String ⊎ String)
  token_of (w, cache, inl e) = (w, cache, inl e)
  token_of (w, cache, inr p) = let (w', result) = token p w in (w', cache, result)

  unfoldable pub cached_bearer_token :
      VertexTokenCache P → W → W × VertexTokenCache P × (String ⊎ String)
  cached_bearer_token cache w = token_of (get_or_try_init cache cache.provider w)
