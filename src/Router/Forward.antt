-- ===== src/Router/Forward.antt =====
-- src/router.rs: the request that goes to a provider, and what the handler calls. Header values are
-- taken as they are: the `parse().unwrap()` of one that HTTP forbids would panic.
use Prim.Native.String.{◌++◌}
use melis.Common.{
  ℕ, String, Bool, not, ◌&&◌, ◌||◌, Option, none, some, List, [], ◌∷◌, find, contains_text,
  ends_with, string_eq, ◌==◌, if◌then◌else◌,
}
use melis.Config.{ProviderConfig}
use melis.CircuitBreaker.{CallResult}
use melis.Error.{GatewayError, service_unavailable, internal, Result, ok, err}
use melis.Json.{Numbers, Value, Serde}
use melis.Transpiler.{get_transpiler}
use melis.Transpiler.Payload.{Translated, done, failed}
use melis.Client.{Sent, Piece}
use melis.Balancer.{LoadBalancer}

-- A header is its name and its value.
pub record Request : Type 0 where
  pub url : String
  pub headers : List (String × String)
  pub body : String
  pub timeout_secs : ℕ

-- The services of `AppState` that the handler calls, over a state that they share.
pub record Services (W : Type 0) : Type 0 where
  pub balancer : LoadBalancer W
  pub is_available : W → String → W × Bool
  pub record_result : W → String → CallResult → W
  pub bearer_token : W → W × Option String
  pub send : W → Request → W × Sent
  pub send_stream : W → Request → W × List Piece

-- The provider's configuration, or the defaults where there is none.
pub record Target : Type 0 where
  pub base_url : String
  pub api_key : String
  pub ptype : String
  pub timeout_secs : ℕ

abbrev pub target_of : Option ProviderConfig → Target
target_of none = record {
  base_url = "http://localhost:11434";
  api_key = "";
  ptype = "ollama";
  timeout_secs = 120;
}
target_of (some p) = record {
  base_url = p.base_url;
  api_key = p.api_key;
  ptype = p.provider_type;
  timeout_secs = p.timeout_secs;
}

unfoldable pub resolve_target : List ProviderConfig → (selected_name : String) → Target
resolve_target providers selected_name =
    target_of (find (λ p. p.id == selected_name || p.provider_type == selected_name) providers)

unfoldable pub forward_url : Target → (effective_model : String) → (streaming : Bool) → String
unfolding contains_text ends_with
forward_url t effective_model streaming =
    if t.ptype == "anthropic"
    then t.base_url ++ "/messages"
    else if t.ptype == "vertex_anthropic"
    then t.base_url
      ++ ("/"
          ++ (effective_model ++ (":" ++ (if streaming then "streamRawPredict" else "rawPredict"))))
    else if contains_text "/openai" t.base_url || ends_with "/v1" t.base_url
    then t.base_url ++ "/chat/completions"
    else t.base_url ++ "/v1/chat/completions"

abbrev pub content_type : String × String
content_type = ("content-type", "application/json")

abbrev pub bearer : String → String × String
bearer token = ("authorization", "Bearer " ++ token)

-- The headers that a static key makes.
abbrev pub key_headers : Target → List (String × String)
key_headers t =
    if not (t.api_key == "") && not (t.api_key == "ollama")
    then if t.ptype == "anthropic"
      then ("x-api-key", t.api_key) ∷ ("anthropic-version", "2023-06-01") ∷ []
      else bearer t.api_key ∷ []
    else []

abbrev pub vertex_unavailable : GatewayError
vertex_unavailable = service_unavailable "Vertex AI authentication unavailable"

abbrev pub token_headers : Option String → Result (List (String × String))
token_headers none = err vertex_unavailable
token_headers (some token) = ok (content_type ∷ bearer token ∷ [])

module _ {W : Type 0} (services : Services W) where
  -- The headers, for which a Claude model on Vertex AI needs a token.
  unfoldable pub build_headers : Target → W → W × Result (List (String × String))
  build_headers t w =
      let (w', token) = services.bearer_token w in
      if t.ptype == "vertex_anthropic"
      then (w', token_headers token)
      else (w, ok (content_type ∷ key_headers t))

module _ {n : Numbers} (serde : Serde n) where
  abbrev pub native_body : Translated n → Result String
  native_body (done native) = ok (serde.print native)
  native_body (failed e) = err (internal "Payload translation failed")

  -- Only two types of provider have the payload translated.
  unfoldable pub build_body : Target → (payload : Value n) → Result String
  build_body t payload =
      if t.ptype == "anthropic"
      then native_body ((get_transpiler serde "anthropic").to_native payload)
      else if t.ptype == "vertex_anthropic"
      then native_body ((get_transpiler serde "vertex_anthropic").to_native payload)
      else ok (serde.print payload)
