-- ===== src/Embeddings.antt =====
-- src/embeddings.rs: the embeddings endpoint over Ollama, with its fallback to the older one. The
-- coordinates of a vector are the parameter `F`; what `serde_json` makes of a response's body, a value
-- or an error's text, is the record `Codec`, and of a request's body the parameter `serde`.
pub mod Answers
mod Tests
use Prim.Native.Char.{code}
use Prim.Native.String.{◌++◌ as ◌⧺◌}
use melis.Common.{
  ℕ, suc, ◌+◌, String, to_string, Bool, true, false, not, ◌&&◌, ◌||◌, Option, none, some, List, [],
  ◌∷◌, ◌++◌, ◌⊎◌, inl, inr, map, find, any, length, is_empty, nat_beq, string_eq, ◌==◌,
  if◌then◌else◌,
}
use melis.Config.{ProviderConfig}
use melis.Error.{
  GatewayError, bad_request, service_unavailable, provider_error, Result, ok, err, ◌>>=◌,
}
use melis.Json.{Numbers, Value, Serde, string, json, list}
use melis.Client.{ClientError, timed_out, http_error, Sent, received, refused}
use melis.Router.Forward.{Request, content_type}
use melis.Router.Handler.{client_error_text}

pub data EmbeddingsInput : Type 0 where
  single : String → EmbeddingsInput
  multiple : List String → EmbeddingsInput

abbrev pub into_vec : EmbeddingsInput → List String
into_vec (single s) = s ∷ []
into_vec (multiple v) = v

abbrev pub all_empty : List String → Bool
all_empty [] = true
all_empty (s ∷ ss) = (s == "") && all_empty ss

abbrev pub is_empty_input : EmbeddingsInput → Bool
is_empty_input (single s) = s == ""
is_empty_input (multiple v) = is_empty v || all_empty v

pub record EmbeddingsRequest : Type 0 where
  pub model : Option String
  pub input : Option EmbeddingsInput
  pub encoding_format : Option String
  pub dimensions : Option ℕ
  pub user : Option String

pub record EmbeddingData (F : Type 0) : Type 0 where
  pub index : ℕ
  pub embedding : List F

pub record EmbeddingsResponse (F : Type 0) : Type 0 where
  pub entries : List (EmbeddingData F)
  pub model : String
  pub prompt_tokens : ℕ
  pub total_tokens : ℕ

abbrev pub check_embeddings_model : Option String → Result String
check_embeddings_model none =
    err (bad_request "Field 'model' is required and must be a non-empty string.")
check_embeddings_model (some m) =
    if m == "" then err (bad_request "Field 'model' must not be empty.") else ok m

abbrev pub check_input : Option EmbeddingsInput → Result EmbeddingsInput
check_input none = err (bad_request "Field 'input' is required.")
check_input (some input) =
    if is_empty_input input then err (bad_request "Field 'input' must not be empty.") else ok input

abbrev pub check_format : Option String → Result (Unit {0})
check_format none = ok tt
check_format (some fmt) =
    if not (fmt == "float")
    then err (
        bad_request
          ("encoding_format '" ⧺ (fmt ⧺ "' is not supported. Only 'float' is supported.")))
    else ok tt

-- The result is the model and the input, which the handler unwraps after the validation.
unfoldable pub validate_embeddings_request : EmbeddingsRequest → Result (String × EmbeddingsInput)
validate_embeddings_request req = do
  model ← check_embeddings_model req.model
  input ← check_input req.input
  _ ← check_format req.encoding_format
  ok (model, input)

pub data EmbeddingProviderError : Type 0 where
  not_found : EmbeddingProviderError
  gateway : GatewayError → EmbeddingProviderError

-- A response's body, read: an error's text, or the vectors.
pub record Codec (F : Type 0) : Type 0 where
  pub read_embed : String → String ⊎ List (List F)
  pub read_legacy : String → String ⊎ List F

-- `trim_end_matches('/')`
unfoldable pub trim_slashes : String → String
trim_slashes String.[] = ""
trim_slashes (String.◌∷◌ c s) =
    let rest = trim_slashes s in
    if nat_beq (code c) b'/' && (rest == "") then "" else String.◌∷◌ c rest

-- `Result<T, EmbeddingProviderError>`
pub data Fetched (T : Type 0) : Type 0 where
  fetched : T → Fetched T
  failed : EmbeddingProviderError → Fetched T

abbrev pub unavailable : ClientError → EmbeddingProviderError
unavailable e = gateway (service_unavailable ("Ollama unavailable: " ⧺ client_error_text e))

module _ {F : Type 0} where
  -- The vectors, put into the response.
  abbrev pub numbered_from : ℕ → List (List F) → List (EmbeddingData F)
  numbered_from i [] = []
  numbered_from i (e ∷ es) = record { index = i; embedding = e } ∷ numbered_from (i + 1) es

  unfoldable pub build_response :
      (model : String) (input_count : ℕ) → List (List F) → Result (EmbeddingsResponse F)
  build_response model input_count embeddings =
      if not (nat_beq (length embeddings) input_count)
      then err (
          provider_error (
            "Provider returned "
            ⧺ (to_string (length embeddings)
                ⧺ (" embeddings for " ⧺ (to_string input_count ⧺ " inputs")))))
      else if any is_empty embeddings
      then err (provider_error "Provider returned empty embedding vector.")
      else ok (record {
        entries = numbered_from 0 embeddings;
        model = model;
        prompt_tokens = 0;
        total_tokens = 0;
      })

module _ {F : Type 0} (codec : Codec F) where
  abbrev pub embed_parsed : String ⊎ List (List F) → Fetched (List (List F))
  embed_parsed (inl e) =
      failed (gateway (provider_error ("Failed to parse Ollama /api/embed response: " ⧺ e)))
  embed_parsed (inr embeddings) = fetched embeddings

  unfoldable pub embed_answer : Sent → Fetched (List (List F))
  embed_answer (received body) = embed_parsed (codec.read_embed body)
  embed_answer (refused (http_error status body)) =
      if nat_beq status 404 then failed not_found else failed (unavailable (http_error status body))
  embed_answer (refused timed_out) =
      failed (gateway (service_unavailable "Ollama timeout on /api/embed"))
  embed_answer (refused e) = failed (unavailable e)

  abbrev pub legacy_parsed : String ⊎ List F → Fetched (List F)
  legacy_parsed (inl e) =
      failed (gateway (provider_error ("Failed to parse Ollama /api/embeddings response: " ⧺ e)))
  legacy_parsed (inr embedding) = fetched embedding

  unfoldable pub legacy_answer : Sent → Fetched (List F)
  legacy_answer (received body) = legacy_parsed (codec.read_legacy body)
  legacy_answer (refused timed_out) =
      failed (gateway (service_unavailable "Ollama timeout on /api/embeddings"))
  legacy_answer (refused e) = failed (unavailable e)

  module _ {n : Numbers} (serde : Serde n) {W : Type 0} (send : W → Request → W × Sent) where
    abbrev pub embed_request : ProviderConfig → (model : String) (inputs : List String) → Request
    embed_request p model inputs = record {
      url = trim_slashes p.base_url ⧺ "/api/embed";
      headers = content_type ∷ [];
      body =
          serde.print (json (("model", string model) ∷ ("input", list (map string inputs)) ∷ []));
      timeout_secs = p.timeout_secs;
    }

    abbrev pub legacy_request : ProviderConfig → (model input : String) → Request
    legacy_request p model input = record {
      url = trim_slashes p.base_url ⧺ "/api/embeddings";
      headers = content_type ∷ [];
      body = serde.print (json (("model", string model) ∷ ("prompt", string input) ∷ []));
      timeout_secs = p.timeout_secs;
    }

    unfoldable pub call_ollama_embed :
        ProviderConfig → (model : String) (inputs : List String) → W → W × Fetched (List (List F))
    call_ollama_embed p model inputs w =
        let (w', sent) = send w (embed_request p model inputs) in (w', embed_answer sent)

    abbrev pub after_legacy :
        W × Fetched (List F)
        → (W → List F → W × Fetched (List (List F)))
        → W × Fetched (List (List F))
    after_legacy (w, failed e) next = (w, failed e)
    after_legacy (w, fetched embedding) next = next w embedding

    -- One request for each input, with the results so far.
    unfoldable pub call_ollama_embeddings_legacy :
        ProviderConfig
        → (model : String) (inputs : List String) → (results : List (List F)) → W
        → W × Fetched (List (List F))
    call_ollama_embeddings_legacy p model [] results w = (w, fetched results)
    call_ollama_embeddings_legacy p model (input ∷ inputs) results w =
        let (w', sent) = send w (legacy_request p model input) in
        after_legacy (w', legacy_answer sent)
          (λ w'' embedding.
            call_ollama_embeddings_legacy p model inputs (results ++ embedding ∷ []) w'')

    abbrev pub finish_embeddings :
        (model : String) (inputs : List String)
        → W × Fetched (List (List F))
        → W × Result (EmbeddingsResponse F)
    finish_embeddings model inputs (w, fetched embeddings) =
        (w, build_response model (length inputs) embeddings)
    finish_embeddings model inputs (w, failed (gateway e)) = (w, err e)
    finish_embeddings model inputs (w, failed not_found) =
        (w, err (service_unavailable "Ollama does not support embeddings endpoints."))

    -- The fallback, on the 404 of the first endpoint.
    abbrev pub or_legacy :
        ProviderConfig
        → (model : String) (inputs : List String) → W × Fetched (List (List F))
        → W × Fetched (List (List F))
    or_legacy p model inputs (w, failed not_found) =
        call_ollama_embeddings_legacy p model inputs [] w
    or_legacy p model inputs (w, failed (gateway e)) = (w, failed (gateway e))
    or_legacy p model inputs (w, fetched embeddings) = (w, fetched embeddings)

    abbrev pub with_ollama :
        Option ProviderConfig
        → (model : String) (inputs : List String) → W
        → W × Result (EmbeddingsResponse F)
    with_ollama none model inputs w =
        (w, err (service_unavailable "No Ollama provider configured for embeddings."))
    with_ollama (some p) model inputs w =
        finish_embeddings model inputs
          (or_legacy p model inputs (call_ollama_embed p model inputs w))

    abbrev pub when_valid :
        List ProviderConfig
        → Result (String × EmbeddingsInput)
        → W
        → W × Result (EmbeddingsResponse F)
    when_valid providers (err e) w = (w, err e)
    when_valid providers (ok (model, input)) w =
        with_ollama (find (λ p. p.provider_type == "ollama") providers) model (into_vec input) w

    unfoldable pub embeddings_handler :
        List ProviderConfig → EmbeddingsRequest → W → W × Result (EmbeddingsResponse F)
    embeddings_handler providers req w = when_valid providers (validate_embeddings_request req) w
