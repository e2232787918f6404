-- ===== src/Router/Handler/Healthy.antt =====
-- src/router.rs: a provider whose circuit is closed and that answers is reached by the handler's loop,
-- with the round robin and the circuit breaker in memory.
use melis.Common.{
  ℕ, ◌≤◌, ◌<◌, ◌≡◌, ◌≢◌, refl, sym, ap, subst, ◌∙◌, String, Bool, true, false, some, List, [], ◌∷◌,
  length, All, In, Bool-cases, inl, inr, string_eq, ◌==◌,
}
use melis.Float.{F64}
use melis.Config.{ProviderConfig}
use melis.CircuitBreaker.{
  CircuitBreakerConfig, ProviderState, closed, entry, check, is_available_one, is_available,
}
use melis.CircuitBreaker.Runs.{Call, ask, report, about, run, run_frame}
use melis.Error.{GatewayError, ok, err}
use melis.Json.{Numbers, Value, Serde}
use melis.Client.{received}
use melis.RouteConfig.{WeightedProvider}
use melis.Balancer.{u64_mod}
use melis.Balancer.Select.{IsLoadBalancer, total, weighted_round_robin-IsLoadBalancer}
use melis.Balancer.Failover.Liveness.{Accepts, weighted_round_robin-Accepts}
use melis.Router.Forward.{
  Request, resolve_target, content_type, key_headers, build_headers, build_body,
}
use melis.Router.Gateway.{Upstream, Gateway, gateway_services}
use melis.Router.Failover.{Attempt, finished, run_failover}
use melis.Router.Failover.Liveness.{run_failover-answered}
use melis.Transpiler.{get_transpiler}
use melis.Streaming.{transform_sse_stream}
use melis.Router.Handler.{
  Reply, json_reply, sse_reply, final_response, call_provider, on_sent, on_stream, chat_attempt,
  request_to,
}
use melis.Router.Handler.Frame.{chat_attempt-keeps}
use melis.Router.Handler.Reports.{attempt_at}

module _ (f : F64) (config : CircuitBreakerConfig f) {U : Type 0} (upstream : Upstream U) where
  gateway-IsLoadBalancer :
      IsLoadBalancer (gateway_services {f = f} {config = config} upstream).balancer
  gateway-IsLoadBalancer = record {
    selects = λ g ps p h. weighted_round_robin-IsLoadBalancer.selects g.counter ps p h;
    refuses = λ g ps e h. weighted_round_robin-IsLoadBalancer.refuses g.counter ps e h;
  }

  gateway-Accepts :
      (ps : List WeightedProvider)
      → All (λ p. 0 < p.weight) ps
      → total ps < u64_mod
      → Accepts (gateway_services {f = f} {config = config} upstream).balancer ps
  gateway-Accepts ps positive fits g excluded left =
      weighted_round_robin-Accepts ps positive fits g.counter excluded left

  abbrev pub IsClosed : String → Gateway f config U → Type 0
  IsClosed id g = (entry f config id g.circuits).state ≡ closed

  module _ {n : Numbers} (serde : Serde n) (decode : List ℕ → String)
      (configs : List ProviderConfig) (model : String) (streaming : Bool) (payload : Value n) where
    abbrev attempt : Gateway f config U → WeightedProvider → Gateway f config U × Attempt (Reply n)
    attempt = attempt_at f config upstream serde decode configs model streaming payload

    -- The request that the provider `name` is sent, with this body.
    abbrev pub request_for : (name body : String) → Request
    request_for name body =
        let t = resolve_target configs name in
        request_to serde decode (gateway_services {f = f} {config = config} upstream) configs model
          streaming payload t (content_type ∷ key_headers t) body

    others_stay :
        (id : String) (g : Gateway f config U) (p : WeightedProvider)
        → p.name ≢ id
        → IsClosed id g
        → IsClosed id (attempt g p).0
    unfolding run
    others_stay id g p other closed_now =
        let stays =
          λ (now : ℕ) (call : Call) (name : about call ≢ id) (g' : Gateway f config U)
              (k : IsClosed id g').
            ap (λ (x : ProviderState). x.state)
              (run_frame f config ((now, call) ∷ []) g'.circuits id (name, tt))
            ∙ k in
        chat_attempt-keeps serde decode (gateway_services upstream) configs model streaming payload
          (IsClosed id) p (λ g' k. stays (upstream.now g'.world) (ask p.name) other g' k)
          (λ g' result k. stays (upstream.now g'.world) (report p.name result) other g' k)
          (λ g' k. k) (λ g' r k. k) (λ g' r k. k) g closed_now

    -- The provider needs no token of Google's, the payload can be put into its format, and it answers
    -- every request with a JSON text.
    abbrev IsServed : String → Type 0
    IsServed name =
        (((resolve_target configs name).ptype == "vertex_anthropic") ≡ false)
        × ((body : String) × (build_body serde (resolve_target configs name) payload ≡ ok body)
            × ((u : U)
                → (reply : String) × (v : Value n) × ((upstream.send u (request_for name body)).1
                    ≡ received reply)
                  × (serde.parse reply ≡ some v)))

    let_in :
        (id : String) (g : Gateway f config U)
        → IsClosed id g
        → ((gateway_services upstream).is_available g id).1 ≡ true
    unfolding is_available is_available_one check
    let_in id g closed_now = rw closed_now refl

    called :
        (name reply : String) (r : Request) (v : Value n) (g : Gateway f config U)
        → (upstream.send g.world r).1 ≡ received reply
        → serde.parse reply ≡ some v
        → (t : Reply n) × ((call_provider serde decode
              (gateway_services upstream)
              configs
              model
              streaming
              payload
              name
              (resolve_target configs name)
              r
              g).1
            ≡ finished (ok t))
    unfolding call_provider on_sent on_stream
    called name reply r v g answered parsed = elim (Bool-cases streaming) [
      | inl streams ↦ (
        sse_reply (
            transform_sse_stream serde (get_transpiler serde (resolve_target configs name).ptype)
              decode (upstream.send_stream g.world r).1),
        rw streams refl,
      )
      | inr whole ↦ (
        json_reply (final_response serde (resolve_target configs name).ptype v),
        rw whole (rw answered (rw parsed refl)),
      )
    ]

    closed_answers :
        (g : Gateway f config U) (p : WeightedProvider)
        → IsServed p.name
        → IsClosed p.name g
        → (t : Reply n) × ((attempt g p).1 ≡ finished (ok t))
    unfolding chat_attempt build_headers
    closed_answers g p (other, (body, built, served)) closed_now =
        let g' = ((gateway_services upstream).is_available g p.name).0 in
        let (reply, v, answered, parsed) = served g'.world in
        let (t, done) = called p.name reply (request_for p.name body) v g' answered parsed in
        (t, rw (let_in p.name g closed_now) (rw other (rw built done)))

    -- With the round robin and the circuit breaker in memory: if there are at most three providers,
    -- their weights are positive and sum to less than 2 ^ 64, one of them has a closed circuit, needs
    -- no token of Google's, can be sent the payload and answers every request for it with a JSON text,
    -- and no attempt at one of another name ends in a final error, then the request is answered,
    -- whatever becomes of the other attempts and of their circuits.
    pub gateway_failover-answered :
        (providers : List WeightedProvider) (healthy : WeightedProvider) (body : String)
        (g : Gateway f config U)
        → In healthy providers
        → length providers ≤ 3
        → All (λ p. 0 < p.weight) providers
        → total providers < u64_mod
        → IsClosed healthy.name g
        → ((resolve_target configs healthy.name).ptype == "vertex_anthropic") ≡ false
        → build_body serde (resolve_target configs healthy.name) payload ≡ ok body
        → ((u : U)
            → (reply : String) × (v : Value n) × ((upstream.send u
                  (request_for healthy.name body)).1
                ≡ received reply)
              × (serde.parse reply ≡ some v))
        → ((g' : Gateway f config U) (p : WeightedProvider) (e : GatewayError)
            → In p providers
            → p.name ≢ healthy.name
            → (attempt_at f config upstream serde decode configs model streaming payload g' p).1
              ≢ finished (err e))
        → (t : Reply n) × ((run_failover
              (gateway_services upstream).balancer
              (attempt_at f config upstream serde decode configs model streaming payload)
              providers
              g).2
            ≡ ok t)
    gateway_failover-answered providers healthy body g listed few positive fits closed_now other
          built served soft =
        run_failover-answered gateway-IsLoadBalancer providers attempt
          (gateway-Accepts providers positive fits) healthy listed (IsClosed healthy.name)
          (λ g' ps k. k) (λ g' p different k. others_stay healthy.name g' p different k) soft
          (λ g' p k same.
            closed_answers g' p (subst IsServed (sym same) (other, (body, built, served)))
              (subst (λ id. IsClosed id g') (sym same) k))
          few g closed_now
