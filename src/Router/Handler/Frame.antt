-- ===== src/Router/Handler/Frame.antt =====
-- src/router.rs: what one attempt of the handler leaves as it was.
use melis.Common.{ℕ, String, Bool, true, false, none, some, List, if_ind}
use melis.Config.{ProviderConfig}
use melis.CircuitBreaker.{CallResult}
use melis.Error.{Result, ok, err}
use melis.Json.{Numbers, Value, Serde}
use melis.Client.{Sent, received, refused, Piece}
use melis.RouteConfig.{WeightedProvider}
use melis.Router.Forward.{Request, Services, Target, resolve_target, build_headers, build_body}
use melis.Router.Failover.{Attempt}
use melis.Router.Handler.{
  Reply, Verdict, final, retry, on_client_error, on_verdict, on_sent, on_stream, call_provider,
  with_body, with_headers, if_available, chat_attempt,
}

-- What the services keep that an attempt at the provider `p` uses, the attempt keeps.
module _ {n : Numbers} (serde : Serde n) (decode : List ℕ → String) {W : Type 0}
    (services : Services W) (configs : List ProviderConfig) (model : String) (streaming : Bool)
    (payload : Value n) (Kept : W → Type 0) (p : WeightedProvider)
    (checked : (w : W) → Kept w → Kept (services.is_available w p.name).0)
    (reported : (w : W) (result : CallResult)
      → Kept w
      → Kept (services.record_result w p.name result))
    (authorized : (w : W) → Kept w → Kept (services.bearer_token w).0)
    (sent : (w : W) (r : Request) → Kept w → Kept (services.send w r).0)
    (streamed : (w : W) (r : Request) → Kept w → Kept (services.send_stream w r).0) where
  verdict_keeps :
      (v : Verdict) (w : W)
      → Kept w
      → Kept (on_verdict serde decode services configs model streaming payload p.name v w).0
  verdict_keeps (final e) w k = k
  verdict_keeps (retry none e) w k = k
  verdict_keeps (retry (some result) e) w k = reported w result k

  sent_keeps :
      (ptype : String) (r : W × Sent)
      → Kept r.0
      → Kept (on_sent serde decode services configs model streaming payload p.name ptype r).0
  unfolding on_sent
  sent_keeps ptype (w, received body) k = reported w _ k
  sent_keeps ptype (w, refused e) k = verdict_keeps (on_client_error model e) w k

  stream_keeps :
      (ptype : String) (r : W × List Piece)
      → Kept r.0
      → Kept (on_stream serde decode services configs model streaming payload p.name ptype r).0
  unfolding on_stream
  stream_keeps ptype (w, pieces) k = reported w _ k

  call_keeps :
      (t : Target) (r : Request) (w : W)
      → Kept w
      → Kept (call_provider serde decode services configs model streaming payload p.name t r w).0
  unfolding call_provider
  call_keeps t r w k =
      if_ind (λ (a : W × Attempt (Reply n)). Kept a.0) streaming
        (stream_keeps t.ptype (services.send_stream w r) (streamed w r k))
        (sent_keeps t.ptype (services.send w r) (sent w r k))

  body_keeps :
      (t : Target) (headers : List (String × String)) (body : Result String) (w : W)
      → Kept w
      → Kept
          (with_body serde decode services configs model streaming payload p.name t headers body
            w).0
  body_keeps t headers (err e) w k = k
  body_keeps t headers (ok body) w k = call_keeps t _ w k

  headers_keep :
      (t : Target) (r : W × Result (List (String × String)))
      → Kept r.0
      → Kept (with_headers serde decode services configs model streaming payload p.name t r).0
  headers_keep t (w, err e) k = k
  headers_keep t (w, ok headers) k = body_keeps t headers (build_body serde t payload) w k

  built_keeps : (t : Target) (w : W) → Kept w → Kept (build_headers services t w).0
  unfolding build_headers
  built_keeps t w k =
      if_ind (λ (a : W × Result (List (String × String))). Kept a.0) _ (authorized w k) k

  available_keeps :
      (r : W × Bool)
      → Kept r.0
      → Kept (if_available serde decode services configs model streaming payload p r).0
  available_keeps (w, false) k = k
  available_keeps (w, true) k =
      let t = resolve_target configs p.name in
      headers_keep t (build_headers services t w) (built_keeps t w k)

  pub chat_attempt-keeps :
      (w : W)
      → Kept w
      → Kept (chat_attempt serde decode services configs model streaming payload w p).0
  unfolding chat_attempt
  chat_attempt-keeps w k = available_keeps (services.is_available w p.name) (checked w k)
