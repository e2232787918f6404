-- ===== src/Router/Tests.antt =====
-- The chat handler at concrete requests, and its theorems at inputs that meet their hypotheses.
use melis.Common.{
  ℕ, ◌+◌, ◌≡◌, ◌≢◌, refl, sym, ap, subst, Bool, In, and_then, strip_prefix, arith, ◌↔◌, ◌⊎◌, inl,
  inr, String, true, false, none, some, List, [], ◌∷◌, All, filter_map, string_eq, ◌==◌,
  if◌then◌else◌, contains_text, ends_with, to_string,
}
use melis.Float.{hundredths}
use melis.Config.{CompactorConfig, ProviderConfig}
use melis.Json.{
  u64_numbers, Value, Fields, Serde, string, object, end, json, list, at, array_at, field,
}
use melis.Error.{ok, err, bad_request, service_unavailable, GatewayError}
use melis.CircuitBreaker.{
  CallResult, CircuitBreakerConfig, closed, from_secs, is_available, is_available_one, check,
  record_result, record_one, react, push_result, prune_window,
}
use melis.Balancer.{weighted_round_robin, select_provider, total_from, walk}
use melis.Balancer.Select.{weighted_round_robin-IsLoadBalancer}
use melis.Balancer.Failover.Attempts.{IsFair, logged_balancer}
use melis.Transpiler.{get_transpiler}
use melis.Streaming.{transform_sse_stream, done_marker}
use melis.Streaming.Text.{split_lines, trim}
use melis.Streaming.Order.{all_lines}
use melis.Client.{refused, received, timed_out, event}
use melis.RouteConfig.{WeightedProvider}
use melis.Compactor.Text.{Unicode}
use melis.Router.Payload.{validate_chat_payload, is_streaming_request, check_each}
use melis.Router.Payload.Valid.{IsChat, validate_chat_payload_iff}
use melis.Router.Compaction.{compact_payload, compact_message, run_compactor}
use melis.Router.Compaction.Messages.{AreCopies, compact_payload_messages}
use melis.Router.Forward.{Target, forward_url, build_body, build_headers, resolve_target}
use melis.Router.Gateway.{Upstream, Gateway, gateway_services}
use melis.Router.Failover.{Attempt, finished, passed_over, run_failover}
use melis.Router.Failover.Attempts.{logged_attempt, run_failover-IsFair}
use melis.Router.Handler.Healthy.{gateway_failover-answered}
use melis.Router.Handler.{
  Reply, json_reply, chat_attempt, call_provider, if_available, on_sent, on_client_error,
  final_response,
}
use melis.CircuitBreaker.Runs.{Call, ask, report, run}
use melis.Router.Handler.Reports.{after_429, attempt_at}
use melis.Router.Handler.Vertex.{HasNoCandidates, google_vertex_ai_mismatch}

abbrev V : Type 0
V = Value u64_numbers

abbrev serde : Serde u64_numbers
serde = record { parse = λ s. if s == "{}" then some (object end) else none; print = λ v. "{}" }

abbrev message : (role content : String) → V
message role content = json (("role", string role) ∷ ("content", string content) ∷ [])

abbrev chat : V
chat = json (("model", string "gpt-4o") ∷ ("messages", list (message "user" "Hi" ∷ [])) ∷ [])

payload_tests :
    (validate_chat_payload chat ≡ ok tt)
    × (validate_chat_payload (
          json (
            ("model", string "m")
            ∷ ("messages", list (message "user" "Hi" ∷ message "user" "" ∷ []))
            ∷ []))
        ≡ err (bad_request "Message at index 1 must have a non-empty 'content' string field."))
    × (is_streaming_request (some "text/html, text/event-stream") chat ≡ true)
    × (is_streaming_request none chat ≡ false)
unfolding validate_chat_payload is_streaming_request check_each contains_text to_string
payload_tests = (refl, refl, refl, refl)

validate_chat_payload_iff_example : (validate_chat_payload chat ≡ ok tt) ↔ IsChat chat
validate_chat_payload_iff_example = validate_chat_payload_iff chat

abbrev target : (base_url ptype : String) → Target
target base_url ptype = record {
  base_url = base_url;
  api_key = "k";
  ptype = ptype;
  timeout_secs = 5;
}

url_tests :
    (forward_url (target "https://api.openai.com/v1" "openai") "m" false
      ≡ "https://api.openai.com/v1/chat/completions")
    × (forward_url (target "http://h" "ollama") "m" false ≡ "http://h/v1/chat/completions")
    × (forward_url (target "https://h/openai/x" "oci_genai") "m" true
        ≡ "https://h/openai/x/chat/completions")
    × (forward_url (target "https://v" "vertex_anthropic") "m" true
        ≡ "https://v/m:streamRawPredict")
unfolding forward_url contains_text ends_with
url_tests = (refl, refl, refl, refl)

abbrev provider : String → WeightedProvider
provider name = record { name = name; weight = 1; model = "m" }

abbrev two : List WeightedProvider
two = provider "slow" ∷ provider "good" ∷ []

abbrev configured : (id base_url : String) → ProviderConfig
configured id base_url = record {
  id = id;
  provider_type = "openai";
  base_url = base_url;
  api_key = "k";
  weight = 1;
  timeout_secs = 5;
  models = [];
  project_id = "";
  region = "";
}

abbrev configs : List ProviderConfig
configs = configured "slow" "http://slow" ∷ configured "good" "http://good" ∷ []

abbrev breaker : CircuitBreakerConfig hundredths
breaker = record {
  failure_threshold_percent = 5000;
  window_duration_secs = 60;
  min_requests_in_window = 2;
  open_ttl_secs = 30;
  max_ttl_secs = 300;
  backoff_factor = 200;
}

-- The clock is the world, and only "good" answers in time.
abbrev upstream : Upstream ℕ
upstream = record {
  now = λ u. u;
  bearer_token = λ u. (u, none);
  send = λ u request. (
    u + 1,
    if request.url == "http://good/v1/chat/completions" then received "{}" else refused timed_out,
  );
  send_stream = λ u request. (u, []);
}

abbrev G : Type 0
G = Gateway hundredths breaker ℕ

abbrev decode : List ℕ → String
decode bs = "data: {}"

abbrev fresh : G
fresh = record { counter = 0; circuits = []; world = 0 }

abbrev attempt : G → WeightedProvider → G × Attempt (Reply u64_numbers)
attempt = chat_attempt serde decode (gateway_services upstream) configs "m" false chat

-- "slow" times out, and "good" is tried next.
failover_test :
    (run_failover (gateway_services upstream).balancer attempt two fresh).2
    ≡ ok (json_reply (object end))
unfolding run_failover chat_attempt call_provider on_client_error on_sent final_response
    build_headers build_body resolve_target forward_url contains_text ends_with select_provider
    total_from walk is_available is_available_one check record_result record_one react push_result
    prune_window
failover_test = refl

-- The same on plain texts: "good" answers with its name.
abbrev plain : ℕ → WeightedProvider → ℕ × Attempt String
plain w p = (
  w,
  if p.name == "good"
      then finished (ok p.name)
      else passed_over (some (service_unavailable "Provider timeout")),
)

run_failover-IsFair_example :
    IsFair two 2
      (run_failover (logged_balancer weighted_round_robin) (logged_attempt plain) two (0, [])).0.1
run_failover-IsFair_example = run_failover-IsFair weighted_round_robin-IsLoadBalancer plain two 0

slow_times_out :
    (r : G × Bool) (e : GatewayError)
    → (if_available serde decode
        (gateway_services upstream)
        configs
        "m"
        false
        chat
        (provider "slow")
        r).1
      ≢ finished (err e)
unfolding call_provider on_client_error on_sent build_headers build_body resolve_target forward_url
    contains_text ends_with
slow_times_out (g, true) e h = cc
slow_times_out (g, false) e h = cc

slow_soft :
    (g : G) (p : WeightedProvider) (e : GatewayError)
    → In p two
    → p.name ≢ "good"
    → (attempt_at hundredths breaker upstream serde decode configs "m" false chat g p).1
      ≢ finished (err e)
unfolding chat_attempt
slow_soft g p e (inl same) other h =
    slow_times_out ((gateway_services upstream).is_available g "slow") e
      (subst (λ q. (attempt g q).1 ≡ finished (err e)) same h)
slow_soft g p e (inr (inl same)) other h = absurd (other (ap (λ q. q.name) same))
slow_soft g p e (inr (inr nothing)) other h = elim nothing [ ]

gateway_failover-answered_example :
    (t : Reply u64_numbers) × ((run_failover
        (gateway_services upstream).balancer
        (attempt_at hundredths breaker upstream serde decode configs "m" false chat)
        two
        fresh).2
      ≡ ok t)
unfolding build_body resolve_target forward_url contains_text ends_with
gateway_failover-answered_example =
    gateway_failover-answered hundredths breaker upstream serde decode configs "m" false chat two
      (provider "good") "{}" fresh (inr (inl refl)) (omega arith) (omega arith, (omega arith, tt))
      (omega arith) refl refl refl (λ u. ("{}", object end, refl, refl)) slow_soft

abbrev limited : G
limited = record fresh {
  circuits =
      (
        "slow",
        record {
          state = closed;
          failures = [];
          total_requests = [];
          current_backoff = from_secs 30;
        },
      )
      ∷ [];
}

-- What other requests do in between: a query for "slow", and a success of "good".
abbrev between : List (ℕ × Call)
between = (5, ask "slow") ∷ (6, report "good" CallResult.success) ∷ []

abbrev later : G
later = record limited {
  circuits =
      run hundredths breaker between
        (after_429 hundredths breaker upstream serde decode configs "m" false chat
          (record limited { world = 1 }) "slow" "openai" "busy").circuits;
  world = 7;
}

abbrev ascii : Unicode
ascii = record { to_lowercase = λ s. s; is_alphanumeric = λ c. true }

abbrev sliding : CompactorConfig hundredths
sliding = record {
  token_threshold = 512;
  max_history_messages = 1;
  stop_words = [];
  tokenizer_name = "";
  target_token_ratio = 0;
  min_final_tokens = 0;
  critical_markers = [];
  preserve_critical_markers = true;
  strategy = "adaptive_trimming";
}

abbrev tool_message : V
tool_message =
    json (("role", string "tool") ∷ ("content", string "done") ∷ ("tool_call_id", string "c1") ∷ [])

abbrev tool_talk : Fields u64_numbers
tool_talk = field "messages" (list (message "user" "Hi" ∷ tool_message ∷ [])) end

compact_payload_messages_example :
    let result =
      run_compactor hundredths ascii sliding
        (filter_map compact_message (message "user" "Hi" ∷ tool_message ∷ [])) in
    ((result.was_compressed ≡ false)
      × (compact_payload hundredths ascii sliding (object tool_talk) ≡ object tool_talk))
    ⊎ ((result.was_compressed ≡ true)
        × ((kept : List V) × AreCopies result.messages kept
            × (array_at "messages" (compact_payload hundredths ascii sliding (object tool_talk))
                ≡ some kept)
            × (at "model" (compact_payload hundredths ascii sliding (object tool_talk)) ≡ none)))
compact_payload_messages_example =
    compact_payload_messages hundredths ascii sliding tool_talk
      (message "user" "Hi" ∷ tool_message ∷ []) "model" refl

abbrev guided_talk : Fields u64_numbers
guided_talk =
    field "messages" (list (message "system" "Be brief" ∷ message "user" "Hi" ∷ tool_message ∷ []))
      end

-- The text of the line is a chunk without candidates.
no_chunks : All (HasNoCandidates serde) (all_lines decode (event [] ∷ []))
unfolding split_lines trim strip_prefix
no_chunks = ((λ v h. ap (λ o. and_then o (array_at "candidates")) (sym h)), tt)

google_vertex_ai_mismatch_example :
    (build_body serde (target "https://v" "google_vertex_ai") chat ≡ ok "{}")
    × (transform_sse_stream serde (get_transpiler serde "google_vertex_ai") decode (event [] ∷ [])
        ≡ done_marker ∷ [])
google_vertex_ai_mismatch_example =
    google_vertex_ai_mismatch serde (target "https://v" "google_vertex_ai") chat decode
      (event [] ∷ []) refl no_chunks
