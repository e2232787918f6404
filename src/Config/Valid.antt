-- ===== src/Config/Valid.antt =====
-- src/config.rs: which configurations pass the checks.
use melis.Common.{
  ℕ, suc, ◌≤◌, ◌<◌, ◌≡◌, ◌≢◌, refl, ◌↔◌, ◌⊎◌, String, Bool, true, false, not, ◌&&◌, List, [], ◌∷◌,
  ◌++◌, All, In, is_empty, is_blank, contains, nat_beq, string_eq, string_beq_iff, ◌==◌, arith,
  iff_trans, iff_×, not-eq-false_iff, iff_⊎, &&-eq-false_iff,
}
use melis.Float.{F64}
use melis.Config.{AuthConfig, ApiKeyEntry, CompactorConfig, ProviderConfig}
use melis.CircuitBreaker.{CircuitBreakerConfig}
use melis.RouteConfig.Valid.{append-eq-nil, contains_iff}
use melis.Config.Gateway.{
  ServerConfig, RedisConfig, RateLimitDefaults, GatewayConfig, Check, failed_checks, each,
  valid_types, server_checks, url_checks, redis_checks, provider_checks, compactor_checks,
  rate_limit_checks, circuit_breaker_checks, key_checks, auth_checks, validate,
}

abbrev pub Filled : String → Type 0
Filled s = is_blank s ≡ false

abbrev pub IsServer : ServerConfig → Type 0
IsServer s = (0 < s.port) × (0 < s.max_payload_size) × (0 < s.max_concurrent_connections)

abbrev pub IsRedis : RedisConfig → Type 0
IsRedis r = (r.cluster_urls ≢ []) × All Filled r.cluster_urls × (0 < r.pool_size)

-- A provider of Claude on Vertex AI needs no static key.
abbrev pub IsProvider : ProviderConfig → Type 0
IsProvider p =
    Filled p.id
    × Filled p.base_url
    × ((p.provider_type ≡ "vertex_anthropic") ⊎ Filled p.api_key)
    × (0 < p.weight)
    × In p.provider_type valid_types

failed_checks-append :
    (xs ys : List Check) → failed_checks (xs ++ ys) ≡ failed_checks xs ++ failed_checks ys
failed_checks-append [] ys = refl
failed_checks-append ((fails, message) ∷ xs) ys = ground (arith, failed_checks-append xs ys)

each_iff :
    {A : Type 0} (checks : ℕ → A → List Check) (P : A → Type 0)
    → ((i : ℕ) (x : A) → (failed_checks (checks i x) ≡ []) ↔ P x)
    → (i : ℕ) (xs : List A) → (failed_checks (each checks i xs) ≡ []) ↔ All P xs
each_iff checks P one i [] = (λ h. tt, λ h. refl)
each_iff checks P one i (x ∷ xs) = rw (failed_checks-append (checks i x) (each checks (suc i) xs)) (
    iff_trans (append-eq-nil (failed_checks (checks i x)) (failed_checks (each checks (suc i) xs)))
      (iff_× (one i x) (each_iff checks P one (suc i) xs)))

failed_checks_iff :
    (checks : List Check) → (failed_checks checks ≡ []) ↔ All (λ (c : Check). c.0 ≡ false) checks
failed_checks_iff [] = (λ h. tt, λ h. refl)
failed_checks_iff ((true, message) ∷ checks) = (λ h. cc, λ h. cc (h.0))
failed_checks_iff ((false, message) ∷ checks) =
    (λ h. (refl, (failed_checks_iff checks).0 h), λ h. (failed_checks_iff checks).1 h.1)

IsServer-iff : (s : ServerConfig) → (failed_checks (server_checks s) ≡ []) ↔ IsServer s
IsServer-iff s = ground arith

url_iff : (i : ℕ) (url : String) → (failed_checks (url_checks i url) ≡ []) ↔ Filled url
url_iff i url = ground arith

known_iff :
    (p : ProviderConfig)
    → (not (contains valid_types p.provider_type) ≡ false) ↔ In p.provider_type valid_types
known_iff p =
    iff_trans (not-eq-false_iff (contains valid_types p.provider_type))
      (contains_iff valid_types p.provider_type)

key_needed_iff :
    (p : ProviderConfig)
    → ((not (p.provider_type == "vertex_anthropic") && is_blank p.api_key) ≡ false)
      ↔ ((p.provider_type ≡ "vertex_anthropic") ⊎ Filled p.api_key)
key_needed_iff p = ground (arith, string_beq_iff p.provider_type "vertex_anthropic")

pos_iff : (n : ℕ) → (nat_beq n 0 ≡ false) ↔ (0 < n)
pos_iff n = ground arith

provider_iff :
    (i : ℕ) (p : ProviderConfig) → (failed_checks (provider_checks i p) ≡ []) ↔ IsProvider p
provider_iff i p = iff_trans (failed_checks_iff (provider_checks i p)) (
  λ (a, (b, (c, (d, (e, u))))).
      (a, b, (key_needed_iff p).0 c, (pos_iff p.weight).0 d, (known_iff p).0 e),
  λ (a, b, c, d, e).
      (a, (b, ((key_needed_iff p).1 c, ((pos_iff p.weight).1 d, ((known_iff p).1 e, tt))))),
)

join_iff :
    {P Q : Type 0} (xs ys : List String) → (xs ≡ []) ↔ P → (ys ≡ []) ↔ Q → (xs ++ ys ≡ []) ↔ (P × Q)
join_iff xs ys p q = iff_trans (append-eq-nil xs ys) (iff_× p q)

filled_list_iff : {A : Type 0} (xs : List A) → (is_empty xs ≡ false) ↔ (xs ≢ [])
filled_list_iff [] = (λ h. cc, λ h. absurd (h refl))
filled_list_iff (x ∷ xs) = (λ h. λ e. cc, λ h. refl)

cons_check_iff :
    (fails : Bool) (message : String) (checks : List Check)
    → (failed_checks ((fails, message) ∷ checks) ≡ [])
      ↔ ((fails ≡ false) × (failed_checks checks ≡ []))
cons_check_iff true message checks = (λ h. cc, λ h. cc (h.0))
cons_check_iff false message checks = (λ h. (refl, h), λ h. h.1)

IsRedis-iff : (r : RedisConfig) → (failed_checks (redis_checks r) ≡ []) ↔ IsRedis r
IsRedis-iff r =
    let pool = (nat_beq r.pool_size 0, "redis.pool_size must be > 0") ∷ [] in
    let urls : (failed_checks (each url_checks 0 r.cluster_urls) ≡ []) ↔ All Filled r.cluster_urls =
      each_iff url_checks Filled url_iff 0 r.cluster_urls in
    let rest : (failed_checks (each url_checks 0 r.cluster_urls ++ pool) ≡ [])
        ↔ (All Filled r.cluster_urls × (0 < r.pool_size)) =
      rw (failed_checks-append (each url_checks 0 r.cluster_urls) pool) (
        iff_trans
          (append-eq-nil (failed_checks (each url_checks 0 r.cluster_urls)) (failed_checks pool))
          (iff_× urls (
            iff_trans (failed_checks_iff pool)
              (λ (d, u). (pos_iff r.pool_size).0 d, λ h. ((pos_iff r.pool_size).1 h, tt))))) in
    iff_trans
      (cons_check_iff (is_empty r.cluster_urls) "redis.cluster_urls must contain at least one URL"
        (each url_checks 0 r.cluster_urls ++ pool))
      (
        λ (a, b). ((filled_list_iff r.cluster_urls).0 a, (rest.0 b).0, (rest.0 b).1),
        λ (a, b, c). ((filled_list_iff r.cluster_urls).1 a, rest.1 (b, c)),
      )

module _ {f : F64} (show : f.Carrier → String) where
  open f use {lit, lt, le}

  abbrev pub IsCompactor : CompactorConfig f → Type 0
  IsCompactor c = (512 ≤ c.token_threshold) × (c.token_threshold ≤ 128000) × Filled c.tokenizer_name

  abbrev pub IsRateLimit : RateLimitDefaults f → Type 0
  IsRateLimit r = (0 < r.burst_capacity) × (le r.refill_rate (lit 0 1) ≡ false)

  abbrev pub IsBreaker : CircuitBreakerConfig f → Type 0
  IsBreaker b =
      (le b.failure_threshold_percent (lit 0 1) ≡ false)
      × (lt (lit 1000 1) b.failure_threshold_percent ≡ false)
      × (0 < b.window_duration_secs)
      × (0 < b.open_ttl_secs)
      × (b.open_ttl_secs ≤ b.max_ttl_secs)
      × (lt b.backoff_factor (lit 10 1) ≡ false)

  abbrev pub IsKey : ApiKeyEntry f → Type 0
  IsKey k = Filled k.key × Filled k.client_id

  abbrev pub IsAuth : AuthConfig f → Type 0
  IsAuth a = ((a.enabled ≡ false) ⊎ (a.api_keys ≢ [])) × All IsKey a.api_keys

  IsCompactor-iff :
      (c : CompactorConfig f) → (failed_checks (compactor_checks show c) ≡ []) ↔ IsCompactor c
  IsCompactor-iff c = ground arith

  IsRateLimit-iff :
      (r : RateLimitDefaults f) → (failed_checks (rate_limit_checks show r) ≡ []) ↔ IsRateLimit r
  IsRateLimit-iff r = ground arith

  IsBreaker-iff :
      (b : CircuitBreakerConfig f)
      → (failed_checks (circuit_breaker_checks show b) ≡ []) ↔ IsBreaker b
  IsBreaker-iff b = iff_trans (failed_checks_iff (circuit_breaker_checks show b)) (ground arith)

  IsKey-iff : (i : ℕ) (k : ApiKeyEntry f) → (failed_checks (key_checks show i k) ≡ []) ↔ IsKey k
  IsKey-iff i k = ground arith

  auth_iff : (a : AuthConfig f) → (failed_checks (auth_checks show a) ≡ []) ↔ IsAuth a
  auth_iff a =
      iff_trans
        (cons_check_iff (a.enabled && is_empty a.api_keys)
          "auth.api_keys must contain at least one entry when auth is enabled"
          (each (key_checks show) 0 a.api_keys))
        (iff_×
          (iff_trans (&&-eq-false_iff a.enabled (is_empty a.api_keys))
            (iff_⊎ (λ h. h, λ h. h) (filled_list_iff a.api_keys)))
          (each_iff (key_checks show) IsKey IsKey-iff 0 a.api_keys))

  pub record IsGatewayConfig (c : GatewayConfig f) : Type 0 where
    pub server : IsServer c.server
    pub redis : IsRedis c.redis
    pub providers : All IsProvider c.providers
    pub compactor : IsCompactor c.compactor
    pub rate_limit : IsRateLimit c.rate_limit
    pub circuit_breaker : IsBreaker c.circuit_breaker
    pub auth : IsAuth c.auth

  pub validate_gateway_iff : (c : GatewayConfig f) → (validate show c ≡ []) ↔ IsGatewayConfig c
  unfolding validate
  validate_gateway_iff c =
      iff_trans
        (join_iff _ _ (IsServer-iff c.server) (
          join_iff _ _ (IsRedis-iff c.redis) (
            join_iff _ _ (each_iff provider_checks IsProvider provider_iff 0 c.providers) (
              join_iff _ _ (IsCompactor-iff c.compactor) (
                join_iff _ _ (IsRateLimit-iff c.rate_limit)
                  (join_iff _ _ (IsBreaker-iff c.circuit_breaker) (auth_iff c.auth)))))))
        (
          λ (a, (b, (d, (e, (g, (h, i)))))). record {
            server = a;
            redis = b;
            providers = d;
            compactor = e;
            rate_limit = g;
            circuit_breaker = h;
            auth = i;
          },
          λ h. (
            h.server,
            (h.redis, (h.providers, (h.compactor, (h.rate_limit, (h.circuit_breaker, h.auth))))),
          ),
        )
