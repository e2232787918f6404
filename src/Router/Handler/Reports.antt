-- ===== src/Router/Handler/Reports.antt =====
-- src/router.rs and src/circuit_breaker.rs: a rate limit met by the handler, and the circuit.
use melis.Common.{ℕ, ◌≡◌, ◌⊎◌, String, Bool, List, string_eq}
use melis.Float.{F64}
use melis.Config.{ProviderConfig}
use melis.CircuitBreaker.{
  CircuitState, closed, opened, half_open, ProviderState, CircuitBreakerConfig, initial_ttl,
  next_backoff,
}
use melis.Json.{Numbers, Value, Serde}
use melis.Client.{refused, http_error}
use melis.RouteConfig.{WeightedProvider}
use melis.Router.Gateway.{Upstream, Gateway, gateway_services}
use melis.Router.Failover.{Attempt}
use melis.Router.Handler.{Reply, on_sent, chat_attempt}

abbrev pub open_until : CircuitState → ℕ
open_until (opened until ttl) = until
open_until closed = 0
open_until half_open = 0

module _ (f : F64) (config : CircuitBreakerConfig f) where
  -- How long a rate limit keeps the circuit open.
  abbrev pub IsTtl : ProviderState → ℕ → Type 0
  IsTtl p ttl = (ttl ≡ initial_ttl f config) ⊎ (ttl ≡ next_backoff f config p.current_backoff)

module _ (f : F64) (config : CircuitBreakerConfig f) {U : Type 0} (upstream : Upstream U)
    {n : Numbers} (serde : Serde n) (decode : List ℕ → String) (configs : List ProviderConfig)
    (model : String) (streaming : Bool) (payload : Value n) where
  abbrev pub attempt_at :
      Gateway f config U → WeightedProvider → Gateway f config U × Attempt (Reply n)
  attempt_at = chat_attempt serde decode (gateway_services upstream) configs model streaming payload

  -- What the gateway is after a call to the provider that met status 429.
  abbrev pub after_429 : Gateway f config U → (name ptype body : String) → Gateway f config U
  after_429 g name ptype body =
      (on_sent serde decode (gateway_services upstream) configs model streaming payload name ptype
        (g, refused (http_error 429 body))).0
