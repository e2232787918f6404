-- ===== src/Embeddings/Tests.antt =====
-- The embeddings endpoint at concrete requests.
use melis.Common.{
  ℕ, ◌+◌, ◌≡◌, refl, List, String, unwrap_or, none, some, [], ◌∷◌, inl, inr, string_eq, ◌==◌,
  if◌then◌else◌,
}
use melis.Error.{ok, err, bad_request, service_unavailable}
use melis.Json.{u64_numbers, Serde, object, end, str_at}
use melis.Config.{ProviderConfig}
use melis.Client.{Sent, received, refused, http_error}
use melis.Router.Forward.{Request}
use melis.Embeddings.{
  EmbeddingsInput, single, multiple, EmbeddingsRequest, EmbeddingsResponse, Codec,
  validate_embeddings_request, trim_slashes, embeddings_handler,
}
use melis.Embeddings.Answers.{IsAnswer, embeddings_handler_falls_back}

-- The vector of a text: "a" has another than the rest.
abbrev vector : String → List ℕ
vector s = (if s == "a" then 1 else 2) ∷ 7 ∷ []

abbrev codec : Codec ℕ
codec = record { read_embed = λ body. inl "no JSON"; read_legacy = λ body. inr (vector body) }

-- The text of a request is its prompt alone.
abbrev serde : Serde u64_numbers
serde = record {
  parse = λ s. if s == "{}" then some (object end) else none;
  print = λ v. unwrap_or (str_at "prompt" v) "";
}

-- An Ollama that has the older endpoint only, and sends the text back; the world counts the requests.
abbrev send : ℕ → Request → ℕ × Sent
send w request =
    if request.url == "http://ollama/api/embed"
    then (w + 1, refused (http_error 404 ""))
    else (w + 1, received request.body)

abbrev ollama : ProviderConfig
ollama = record {
  id = "o";
  provider_type = "ollama";
  base_url = "http://ollama/";
  api_key = "";
  weight = 1;
  timeout_secs = 30;
  models = [];
  project_id = "";
  region = "";
}

abbrev request : EmbeddingsInput → EmbeddingsRequest
request input = record {
  model = some "m";
  input = some input;
  encoding_format = some "float";
  dimensions = none;
  user = none;
}

validation_tests :
    (trim_slashes "http://ollama//" ≡ "http://ollama")
    × (validate_embeddings_request (request (multiple ("" ∷ [])))
        ≡ err (bad_request "Field 'input' must not be empty."))
    × (embeddings_handler codec serde send [] (request (single "a")) 0
        ≡ (0, err (service_unavailable "No Ollama provider configured for embeddings.")))
unfolding trim_slashes validate_embeddings_request embeddings_handler
validation_tests = (refl, refl, refl)

embeddings_handler_falls_back_example :
    (response : EmbeddingsResponse ℕ) × ((embeddings_handler codec serde send
        (ollama ∷ [])
        (request (multiple ("a" ∷ "b" ∷ [])))
        0).1
      ≡ ok response)
    × IsAnswer vector "m" ("a" ∷ "b" ∷ []) response
unfolding trim_slashes validate_embeddings_request
embeddings_handler_falls_back_example =
    embeddings_handler_falls_back codec serde send ollama "m" vector
      (λ w input. (input, refl, refl)) (λ input. refl) (request (multiple ("a" ∷ "b" ∷ [])))
      (multiple ("a" ∷ "b" ∷ [])) (ollama ∷ []) 0 "" refl refl refl
