-- ===== src/Router/Handler.antt =====
-- src/router.rs: one attempt at a provider, and the chat handler. Metrics and logs are left out.
pub mod Reports
pub mod Vertex
pub mod Unrouted
pub mod Frame
pub mod Healthy
use Prim.Native.String.{◌++◌}
use melis.Common.{
  ℕ, String, to_string, Bool, true, false, Option, none, some, List, [], ◌∷◌, unwrap_or, leb,
  nat_beq, string_eq, ◌==◌, ◌||◌, if◌then◌else◌,
}
use melis.Float.{F64}
use melis.Config.{CompactorConfig, ProviderConfig}
use melis.CircuitBreaker.{CallResult}
use melis.Error.{
  GatewayError, bad_request, unauthorized, rate_limited, service_unavailable, internal,
  provider_error, Result, ok, err,
}
use melis.Json.{Numbers, Value, Serde, string, object, put, str_at}
use melis.Transpiler.{get_transpiler}
use melis.Transpiler.Payload.{PayloadTranspiler, Translated, done, failed}
use melis.Client.{
  refused, received, Sent, ClientError, timed_out, http_error, network_error, stream_error, Piece,
}
use melis.Streaming.{transform_sse_stream}
use melis.RouteConfig.{WeightedProvider, RouteResolver}
use melis.Compactor.Text.{Unicode}
use melis.Router.{ResolvedRoute, resolve_route_config}
use melis.Router.Payload.{validate_chat_payload, is_streaming_request}
use melis.Router.Compaction.{compact_payload}
use melis.Router.Forward.{
  Request, Services, Target, resolve_target, forward_url, build_headers, build_body,
}
use melis.Router.Failover.{Attempt, finished, passed_over, run_failover}

-- A response of the handler: a JSON body, or the events of a stream.
pub data Reply (n : Numbers) : Type 0 where
  json_reply : Value n → Reply n
  sse_reply : List String → Reply n

-- `Display` of a client error.
abbrev pub client_error_text : ClientError → String
client_error_text timed_out = "Request timed out"
client_error_text (http_error status body) = "HTTP error " ++ (to_string status ++ (": " ++ body))
client_error_text (network_error e) = "Network error: " ++ e
client_error_text (stream_error e) = "Stream error: " ++ e

-- What a failed call means: a report_result to the circuit breaker if there is one, and the end of the
-- loop or the error to remember.
pub data Verdict : Type 0 where
  final : GatewayError → Verdict
  retry : Option CallResult → GatewayError → Verdict

abbrev pub on_status : (effective_model : String) (status : ℕ) (body : String) → Verdict
on_status effective_model status body =
    if nat_beq status 400
    then final (bad_request ("Provider error: " ++ body))
    else if nat_beq status 401 || nat_beq status 403
    then final (unauthorized ("Provider auth error: " ++ body))
    else if nat_beq status 404
    then final (bad_request ("Model '" ++ (effective_model ++ "' not found at provider")))
    else if nat_beq status 429
    then retry (some CallResult.rate_limited) (rate_limited 30)
    else if leb 500 status
    then retry (some CallResult.failure)
        (service_unavailable ("Provider error " ++ (to_string status ++ (": " ++ body))))
    else retry none (provider_error ("HTTP " ++ (to_string status ++ (": " ++ body))))

unfoldable pub on_client_error : (effective_model : String) → ClientError → Verdict
on_client_error effective_model (http_error status body) = on_status effective_model status body
on_client_error effective_model timed_out =
    retry (some CallResult.timeout) (service_unavailable "Provider timeout")
on_client_error effective_model (network_error e) =
    retry (some CallResult.failure)
      (service_unavailable ("Provider unavailable: " ++ client_error_text (network_error e)))
on_client_error effective_model (stream_error e) =
    retry (some CallResult.failure)
      (service_unavailable ("Provider unavailable: " ++ client_error_text (stream_error e)))

module _ {n : Numbers} where
  -- The translated response, or the response itself where that fails.
  abbrev pub translated_or : Translated n → Value n → Value n
  translated_or (done v) response = v
  translated_or (failed e) response = response

  -- `obj.insert("model", effective_model)`
  abbrev pub with_model : String → Value n → Value n
  with_model model (object fields) = object (put "model" (string model) fields)
  with_model model v = v

module _ {n : Numbers} (serde : Serde n) where
  unfoldable pub final_response : (ptype : String) → Value n → Value n
  final_response ptype response =
      if ptype == "anthropic"
      then translated_or ((get_transpiler serde "anthropic").from_native response) response
      else if ptype == "vertex_anthropic"
      then translated_or ((get_transpiler serde "vertex_anthropic").from_native response) response
      else response

  abbrev pub parsed_reply : (ptype : String) → Option (Value n) → Result (Reply n)
  parsed_reply ptype none = err (provider_error "Invalid response from provider")
  parsed_reply ptype (some response) = ok (json_reply (final_response ptype response))

module _ {n : Numbers} (serde : Serde n) (decode : List ℕ → String) {W : Type 0}
    (services : Services W) (configs : List ProviderConfig) (effective_model : String)
    (streaming : Bool) (payload : Value n) where
  abbrev pub report_result : String → Option CallResult → W → W
  report_result name none w = w
  report_result name (some result) w = services.record_result w name result

  abbrev pub on_verdict : String → Verdict → W → W × Attempt (Reply n)
  on_verdict name (final e) w = (w, finished (err e))
  on_verdict name (retry result e) w = (report_result name result w, passed_over (some e))

  -- `send` and the `match` on its result.
  unfoldable pub on_sent : (name ptype : String) → W × Sent → W × Attempt (Reply n)
  on_sent name ptype (w, received body) = (
    services.record_result w name CallResult.success,
    finished (parsed_reply serde ptype (serde.parse body)),
  )
  on_sent name ptype (w, refused e) = on_verdict name (on_client_error effective_model e) w

  -- A stream is reported as a success before anything has been received of it.
  unfoldable pub on_stream : (name ptype : String) → W × List Piece → W × Attempt (Reply n)
  on_stream name ptype (w, pieces) = (
    services.record_result w name CallResult.success,
    finished
        (ok (sse_reply (transform_sse_stream serde (get_transpiler serde ptype) decode pieces))),
  )

  abbrev pub request_to : Target → (headers : List (String × String)) (body : String) → Request
  request_to t headers body = record {
    url = forward_url t effective_model streaming;
    headers = headers;
    body = body;
    timeout_secs = t.timeout_secs;
  }

  unfoldable pub call_provider : (name : String) → Target → Request → W → W × Attempt (Reply n)
  unfolding on_sent on_stream
  call_provider name t request w =
      if streaming
      then on_stream name t.ptype (services.send_stream w request)
      else on_sent name t.ptype (services.send w request)

  abbrev pub with_body :
      (name : String)
      → Target
      → (headers : List (String × String)) → Result String
      → W
      → W × Attempt (Reply n)
  with_body name t headers (err e) w = (w, finished (err e))
  with_body name t headers (ok body) w = call_provider name t (request_to t headers body) w

  abbrev pub with_headers :
      (name : String) → Target → W × Result (List (String × String)) → W × Attempt (Reply n)
  with_headers name t (w, err e) = (w, finished (err e))
  with_headers name t (w, ok headers) = with_body name t headers (build_body serde t payload) w

  abbrev pub if_available : WeightedProvider → W × Bool → W × Attempt (Reply n)
  if_available p (w, false) = (w, passed_over none)
  if_available p (w, true) =
      let t = resolve_target configs p.name in with_headers p.name t (build_headers services t w)

  -- The body of the failover loop after the selection.
  unfoldable pub chat_attempt : W → WeightedProvider → W × Attempt (Reply n)
  unfolding call_provider
  chat_attempt w p = if_available p (services.is_available w p.name)

module _ {n : Numbers} (f : F64) (u : Unicode) (upper : String → String) (serde : Serde n)
    (decode : List ℕ → String) {W : Type 0} (services : Services W) (configs : List ProviderConfig)
    (global_compactor : CompactorConfig f) (resolver : RouteResolver f upper) where
  -- The request with the route's model, and its messages compacted.
  unfoldable pub prepared : ResolvedRoute f → Value n → Value n
  prepared resolved payload =
      compact_payload f u resolved.effective_token_config (with_model resolved.model payload)

  unfoldable pub dispatch :
      ResolvedRoute f → (streaming : Bool) → Value n → W → W × Result (Reply n)
  unfolding prepared
  dispatch resolved streaming payload w =
      let attempt =
        chat_attempt serde decode services configs resolved.model streaming
          (prepared resolved payload) in
      let (w', excluded, response) = run_failover services.balancer attempt resolved.providers w in
      (w', response)

  abbrev pub if_valid : Result (Unit {0}) → W × Result (Reply n) → W → W × Result (Reply n)
  if_valid (err e) next w = (w, err e)
  if_valid (ok valid) next w = next

  unfoldable pub chat_completions_handler :
      (path : String) (accept : Option String) (payload : Value n) → W → W × Result (Reply n)
  unfolding dispatch
  chat_completions_handler path accept payload w =
      let model_from_payload = unwrap_or (str_at "model" payload) "" in
      let resolved =
        resolve_route_config f upper resolver path "POST" model_from_payload global_compactor in
      if_valid (validate_chat_payload payload)
        (dispatch resolved (is_streaming_request accept payload) payload w) w
