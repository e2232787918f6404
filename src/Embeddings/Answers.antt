-- ===== src/Embeddings/Answers.antt =====
-- src/embeddings.rs: what an answer of the endpoint holds.
use melis.Common.{
  ℕ, ◌+◌, ◌≡◌, refl, sym, ap, map, append-nil, append_assoc, ◌∙◌, inr, String, false, some, List,
  [], ◌∷◌, ◌++◌, any, length, is_empty, nat_beq_iff, find, string_eq, ◌==◌, subst, arith,
}
use melis.Error.{ok}
use melis.Json.{Numbers, Serde}
use melis.Client.{Sent, received, refused, http_error}
use melis.Config.{ProviderConfig}
use melis.Router.Forward.{Request}
use melis.Embeddings.{
  EmbeddingsInput, EmbeddingsRequest, EmbeddingData, EmbeddingsResponse, into_vec, Codec, Fetched,
  fetched, failed, validate_embeddings_request, numbered_from, build_response, legacy_answer,
  call_ollama_embed, call_ollama_embeddings_legacy, finish_embeddings, embeddings_handler,
  legacy_request, embed_request, embed_answer,
}

module _ {F : Type 0} (vector : String → List F) where
  -- One entry for each input, in order: its number from `i` on, and the input's vector.
  abbrev pub AreVectors : ℕ → List String → List (EmbeddingData F) → Type 0
  AreVectors i [] [] = Unit
  AreVectors i (input ∷ inputs) (d ∷ ds) =
      (d.index ≡ i) × (d.embedding ≡ vector input) × AreVectors (i + 1) inputs ds
  AreVectors i [] (d ∷ ds) = ⊥
  AreVectors i (input ∷ inputs) [] = ⊥

  pub record IsAnswer (model : String) (inputs : List String) (response : EmbeddingsResponse F)
      : Type 0 where
    pub same_model : response.model ≡ model
    pub in_order : AreVectors 0 inputs response.entries

  length-vectors : (inputs : List String) → length (map vector inputs) ≡ length inputs
  length-vectors [] = refl
  length-vectors (input ∷ inputs) = omega (arith, length-vectors inputs)

  numbered_from-AreVectors :
      (i : ℕ) (inputs : List String) → AreVectors i inputs (numbered_from i (map vector inputs))
  numbered_from-AreVectors i [] = tt
  numbered_from-AreVectors i (input ∷ inputs) =
      (refl, refl, numbered_from-AreVectors (i + 1) inputs)

  none_empty :
      (inputs : List String)
      → ((input : String) → is_empty (vector input) ≡ false)
      → any is_empty (map vector inputs) ≡ false
  none_empty [] full = refl
  none_empty (input ∷ inputs) full = rw (full input) (none_empty inputs full)

  build_response-IsAnswer :
      (model : String) (inputs : List String)
      → ((input : String) → is_empty (vector input) ≡ false)
      → (response : EmbeddingsResponse F) × (build_response model
            (length inputs)
            (map vector inputs)
          ≡ ok response)
        × IsAnswer model inputs response
  unfolding build_response
  build_response-IsAnswer model inputs full = (
    record {
      entries = numbered_from 0 (map vector inputs);
      model = model;
      prompt_tokens = 0;
      total_tokens = 0;
    },
    rw (length-vectors inputs) (
        rw ((nat_beq_iff (length inputs) (length inputs)).1 refl)
          (rw (none_empty inputs full) refl)),
    record { same_model = refl; in_order = numbered_from-AreVectors 0 inputs },
  )

  fetched_inj :
      (xs ys : List (List F))
      → ◌≡◌ {A = Fetched (List (List F))} (fetched xs) (fetched ys)
      → xs ≡ ys
  fetched_inj xs ys h = cc

module _ {F : Type 0} (codec : Codec F) {n : Numbers} (serde : Serde n) {W : Type 0}
    (send : W → Request → W × Sent) (p : ProviderConfig) (model : String) (vector : String → List F)
    (answers : (w : W) (input : String)
      → (body : String) × ((send w (legacy_request codec serde send p model input)).1
          ≡ received body)
        × (codec.read_legacy body ≡ inr (vector input)))
    (full : (input : String) → is_empty (vector input) ≡ false) where
  legacy_fetches :
      (inputs : List String) (results : List (List F)) (w : W)
      → (call_ollama_embeddings_legacy codec serde send p model inputs results w).1
        ≡ fetched (results ++ map vector inputs)
  unfolding call_ollama_embeddings_legacy legacy_answer
  legacy_fetches [] results w = ap fetched (sym (append-nil results))
  legacy_fetches (input ∷ inputs) results w =
      let (body, sent, read) = answers w input in
      let w' = (send w (legacy_request codec serde send p model input)).0 in
      rw sent (
        rw read (
          legacy_fetches inputs (results ++ vector input ∷ []) w'
          ∙ ap fetched (append_assoc results (vector input ∷ []) (map vector inputs))))

  finish_embeddings-IsAnswer :
      (inputs : List String) (r : W × Fetched (List (List F)))
      → r.1 ≡ fetched (map vector inputs)
      → (response : EmbeddingsResponse F) × ((finish_embeddings codec serde send model inputs r).1
          ≡ ok response)
        × IsAnswer vector model inputs response
  finish_embeddings-IsAnswer inputs (w, fetched found) same =
      let (response, built, answer) = build_response-IsAnswer vector model inputs full in
      (
        response,
        subst (λ x. build_response model (length inputs) x ≡ ok response)
            (sym (fetched_inj vector found (map vector inputs) same)) built,
        answer,
      )
  finish_embeddings-IsAnswer inputs (w, failed e) same = cc

  -- An Ollama that answers the newer endpoint with status 404, and the older one, for each text, with
  -- that text's vector, which is not empty, serves every valid request: the response names the model,
  -- and has one entry for each input in order, with its number and its own vector.
  pub embeddings_handler_falls_back :
      (req : EmbeddingsRequest) (input : EmbeddingsInput) (providers : List ProviderConfig) (w : W)
      (body : String)
      → validate_embeddings_request req ≡ ok (model, input)
      → find (λ q. q.provider_type == "ollama") providers ≡ some p
      → (send w (embed_request codec serde send p model (into_vec input))).1
        ≡ refused (http_error 404 body)
      → (response : EmbeddingsResponse F) × ((embeddings_handler codec serde send providers req w).1
          ≡ ok response)
        × IsAnswer vector model (into_vec input) response
  unfolding embeddings_handler call_ollama_embed embed_answer
  embeddings_handler_falls_back req input providers w body valid found missing =
      let w' = (send w (embed_request codec serde send p model (into_vec input))).0 in
      let (response, finished, answer) =
        finish_embeddings-IsAnswer (into_vec input)
          (call_ollama_embeddings_legacy codec serde send p model (into_vec input) [] w')
          (legacy_fetches (into_vec input) [] w') in
      (response, rw valid (rw found (rw missing finished)), answer)
