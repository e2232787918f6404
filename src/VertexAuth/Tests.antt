-- ===== src/VertexAuth/Tests.antt =====
-- The cache at a concrete source of credentials.
use melis.Common.{ℕ, ◌+◌, ◌≡◌, refl, String, some, ◌⊎◌, inl, inr, nat_beq, if◌then◌else◌}
use melis.VertexAuth.{VertexTokenCache, new_cache, cached_bearer_token}

-- The world counts the discoveries, of which the first fails.
abbrev discover : ℕ → ℕ × (String ⊎ String)
discover w = (w + 1, if nat_beq w 0 then inl "no credentials" else inr "adc")

abbrev token : String → ℕ → ℕ × (String ⊎ String)
token p w = (w, inr p)

abbrev found : VertexTokenCache String
found = record { provider = some "adc" }

cache_tests :
    (cached_bearer_token discover token new_cache 0 ≡ (1, new_cache, inl "no credentials"))
    × (cached_bearer_token discover token new_cache 1 ≡ (2, found, inr "adc"))
    × (cached_bearer_token discover token found 2 ≡ (2, found, inr "adc"))
unfolding cached_bearer_token
cache_tests = (refl, refl, refl)
