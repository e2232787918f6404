-- ===== src/Router/Gateway.antt =====
-- src/state.rs: the services that the gateway is built with, the round robin and the circuit breaker
-- kept in memory. What it asks of the network and of the clock is a parameter.
use melis.Common.{ℕ, String, Option, List}
use melis.Float.{F64}
use melis.CircuitBreaker.{CircuitBreakerConfig, States, is_available, record_result}
use melis.Balancer.{select_provider}
use melis.Client.{Sent, Piece}
use melis.Router.Forward.{Request, Services}

-- The world: the clock that `Instant::now()` reads, and what it answers.
pub record Upstream (U : Type 0) : Type 0 where
  pub now : U → ℕ
  pub bearer_token : U → U × Option String
  pub send : U → Request → U × Sent
  pub send_stream : U → Request → U × List Piece

module _ (f : F64) (config : CircuitBreakerConfig f) (U : Type 0) where
  pub record Gateway : Type 0 where
    pub counter : ℕ
    pub circuits : States f config
    pub world : U

module _ {f : F64} {config : CircuitBreakerConfig f} {U : Type 0} (upstream : Upstream U) where
  abbrev pub in_world : {A : Type 0} → Gateway f config U → U × A → Gateway f config U × A
  in_world g (u, a) = (record g { world = u }, a)

  abbrev pub gateway_services : Services (Gateway f config U)
  gateway_services = record {
    balancer = record {
      select = λ g providers.
          let (counter', selected) = select_provider g.counter providers in
          (record g { counter = counter' }, selected);
    };
    is_available = λ g id.
        let (circuits', free) = is_available f config (upstream.now g.world) id g.circuits in
        (record g { circuits = circuits' }, free);
    record_result = λ g id result. record g {
      circuits = record_result f config (upstream.now g.world) id result g.circuits;
    };
    bearer_token = λ g. in_world g (upstream.bearer_token g.world);
    send = λ g request. in_world g (upstream.send g.world request);
    send_stream = λ g request. in_world g (upstream.send_stream g.world request);
  }
