-- ===== src/Router/Routes/Tests.antt =====
-- The routes at a concrete file.
use melis.Common.{
  ℕ, ◌+◌, ◌≡◌, ◌≢◌, ◌≤◌, ◌↔◌, ◌⊎◌, refl, sym, ap, ◌∙◌, string_beq_iff, inl, inr, String, true,
  false, Option, some, none, List, [], ◌∷◌, In, map, length, string_eq, ◌==◌, if◌then◌else◌,
}
use melis.Float.{hundredths}
use melis.Config.Gateway.{default_compactor}
use melis.Error.{ok, err, service_unavailable}
use melis.Json.{u64_numbers, Value, Serde, string, json, list}
use melis.RouteConfig.{
  RouteDefinition, RouteConfigFile, validate, routes_errors, provider_errors, route_errors,
  new_resolver,
}
use melis.Compactor.Text.{Unicode}
use melis.Client.{refused, timed_out}
use melis.Router.Forward.{Services}
use melis.Router.Payload.{validate_chat_payload, check_each}
use melis.Router.Handler.{chat_completions_handler}
use melis.Router.Handler.Unrouted.{chat_completions_handler_unrouted}
use melis.Router.Routes.{get, post, chat_at, build_router, chat_routes}
use melis.Router.Routes.Reached.{matching, build_router_reaches}

abbrev route : (path method : String) → RouteDefinition hundredths
route path method = record {
  path = path;
  method = method;
  provider = some "openai";
  model = none;
  providers = none;
  token_optimization = none;
}

abbrev config : RouteConfigFile hundredths
config = record {
  routes = route "/list" "GET" ∷ route "/chat" "POST" ∷ route "/chat" "PUT" ∷ [];
  custom_providers = [];
}

registered_tests :
    (matching post "/chat" (build_router config.routes) ≡ chat_at "/chat" ∷ [])
    × (matching get "/list" (build_router config.routes) ≡ [])
unfolding build_router chat_routes
registered_tests = (refl, refl)

build_router_reaches_example :
    (length (matching post "/list" (build_router config.routes)) ≤ 1)
    × ((matching post "/list" (build_router config.routes) ≡ chat_at "/list" ∷ []) ↔ (
        (◌≢◌ {A = String} "/list" "/v1/embeddings")
        × ((◌≡◌ {A = String} "/list" "/v1/chat/completions")
            ⊎ In "/list" (map (λ r. r.path) config.routes))))
build_router_reaches_example = build_router_reaches "/list" config.routes

abbrev upper : String → String
upper s = s

abbrev chat : Value u64_numbers
chat = json (
    ("model", string "m")
    ∷ ("messages", list (json (("role", string "user") ∷ ("content", string "Hi") ∷ []) ∷ []))
    ∷ [])

abbrev serde : Serde u64_numbers
serde = record { parse = λ s. none; print = λ v. "{}" }

abbrev ascii : Unicode
ascii = record { to_lowercase = λ s. s; is_alphanumeric = λ c. true }

-- The world counts what is asked of the services.
abbrev services : Services ℕ
services = record {
  balancer = record { select = λ w providers. (w + 1, err (service_unavailable "none")) };
  is_available = λ w id. (w + 1, true);
  record_result = λ w id result. w + 1;
  bearer_token = λ w. (w + 1, none);
  send = λ w request. (w + 1, refused timed_out);
  send_stream = λ w request. (w + 1, []);
}

config-valid : validate hundredths upper config ≡ []
unfolding melis.Common.is_blank validate routes_errors provider_errors route_errors
config-valid = refl

differ : (s t : String) → (s == t) ≡ false → s ≢ t
differ s t h e = cc (h, (string_beq_iff s t).1 e)

no_post :
    (r : RouteDefinition hundredths)
    → In r config.routes
    → r.path ≡ "/list"
    → upper r.method ≢ upper "POST"
no_post r (inl same) path h = differ "GET" "POST" refl (sym (ap (λ x. x.method) same) ∙ h)
no_post r (inr (inl same)) path h = differ "/chat" "/list" refl (sym (ap (λ x. x.path) same) ∙ path)
no_post r (inr (inr (inl same))) path h =
    differ "/chat" "/list" refl (sym (ap (λ x. x.path) same) ∙ path)
no_post r (inr (inr (inr other))) path h = elim other [ ]

accepted : validate_chat_payload chat ≡ ok tt
unfolding validate_chat_payload check_each
accepted = refl

chat_completions_handler_unrouted_example :
    chat_completions_handler hundredths ascii upper serde
      (λ bs. "")
      services
      []
      (default_compactor hundredths)
      (new_resolver hundredths upper config)
      "/list"
      none
      chat
      0
    ≡ (0, err (service_unavailable "All providers exhausted"))
chat_completions_handler_unrouted_example =
    chat_completions_handler_unrouted hundredths ascii upper serde (λ bs. "") services []
      (default_compactor hundredths) config "/list" none chat 0 config-valid no_post accepted
