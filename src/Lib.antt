-- ===== src/Lib.antt =====
-- Verification library of the Melis AI gateway, an HTTP gateway in front of several LLM providers.
--
-- A request passes the authentication middleware and the rate limiter; the route configuration then
-- says which providers serve its path and how its message history is compacted; the balancer picks a
-- provider, with failover; the circuit breaker keeps failing providers out; a transpiler puts the
-- payload into the provider's format and the answer back; and a streamed answer is split into events,
-- each of which is translated and sent on. These parts are modelled here, each from its own source
-- file:
--
-- - Error, src/error.rs. The error enum `GatewayError`, `Result` with the operator `?` as a bind, and
--   `into_response`.
-- - Config, src/config.rs. The records that the other parts read; Config/Gateway has the whole
--   configuration, its defaults, the overrides from the environment and `validate`, which
--   Config/Valid is about, and Config/Load has `load` and `from_yaml`.
-- - Float, what the program does with an `f64`.
-- - RouteConfig, src/route_config.rs. The data of routes.yaml, `validate`, the resolver
--   (`new_resolver`, `resolve_route`), `effective_token_config`, and the reload: `start` is the
--   initial load and `try_reload` the swap after a file change. RouteConfig/Valid is about
--   validation, RouteConfig/Resolve about the resolver, RouteConfig/Reload about the reloads.
-- - Routing, src/routing.rs. Which provider serves a model. Routing/Order is about the order of the
--   sources.
-- - Balancer, src/balancer.rs. `select_provider` has the atomic counter as its state;
--   `execute_with_failover` works over any balancer and any request, both of which may change a
--   shared state `W`, so that other requests may run in between. Balancer/Select and
--   Balancer/Fairness are about the selection, Balancer/Failover and its modules about the loop.
-- - CircuitBreaker, src/circuit_breaker.rs. `is_available` and `record_result` on the table of
--   providers. CircuitBreaker/Window is about the sliding window, CircuitBreaker/Runs about
--   sequences of calls, CircuitBreaker/Machine and CircuitBreaker/Recovery about the states.
-- - Middleware/Auth, src/middleware/auth.rs. The header, the token and the lookup of the key.
-- - Middleware/RateLimiter, src/middleware/rate_limiter.rs. The token bucket in memory,
--   `try_acquire`, and the middleware around it.
-- - Compactor, src/compactor.rs. The simple compactor, `compact`, by its steps: `windowed`,
--   `without_stop_words`, `take_until`, `finish`. Compactor/Text has its text functions,
--   Compactor/Budget is about the tokens, Compactor/Keeps about the messages that survive.
--   Compactor/Semantic is the compactor that goes by scores, which Compactor/Semantic/Importance
--   computes; its children Keeps, Loop, Order and Trim are about what it keeps and takes out.
-- - Json, the values of `serde_json` and the operations on them; Json/Laws is about objects as maps.
-- - Transpiler, src/transpiler. One module for each provider format, with `to_native`, `from_native`
--   and `translate_chunk`; Transpiler/Anthropic/Messages has the conversion of messages and tools,
--   Transpiler/Anthropic/Requests and Transpiler/Anthropic/Calls are about requests and the calls of
--   tools, Transpiler/Vertex/Contents and Transpiler/VertexAnthropic/Body about the other two.
-- - Client, src/client.rs. What `send` makes of the outcome of a request, and the splitter of a byte
--   stream into events, `poll_next`; `pieces` polls it to its end. Client/Splitter and Client/Merged
--   are about it.
-- - Streaming, src/streaming.rs. `transform_sse_stream` by lines, with the operations on text in
--   Streaming/Text. Streaming/Order is about what is sent.
-- - Router, src/router.rs. The chat handler by its steps: `validate_chat_payload` and
--   `is_streaming_request` in Router/Payload, `resolve_route_config` in Router, `compact_payload` in
--   Router/Compaction, the forwarded request in Router/Forward, the loop over the providers in
--   Router/Failover, and one attempt and the whole handler in Router/Handler. What it calls is the
--   record `Services` over a shared state; Router/Gateway fills it with the round robin and the
--   circuit breaker in memory, over a world that has the clock and the network. Router/Routes has the
--   paths that `build_router` registers. The children of these modules are about them.
-- - Embeddings, src/embeddings.rs. The validation of a request, the two endpoints of Ollama with the
--   fallback from one to the other, and the response; Embeddings/Answers is about the fallback.
-- - VertexAuth, src/vertex_auth.rs. The cache of the credentials that the handler asks for a token.
-- - Common, lists, options, keys, numbers and text that the parts share.
--
-- Conventions. A `u64` or a `usize` is a natural number; the arithmetic of the balancer is written
-- modulo 2 ^ 64, and elsewhere no number comes near that bound. Instants and durations are
-- nanoseconds, instant 0 being the earliest that the platform represents, and their sum, which panics
-- in the source where the platform cannot represent it, is unbounded; the clock is an argument of
-- every call that reads it. A lock or an atomic makes a call one step, so concurrent requests are
-- sequences of calls. A hash map is an association list. The arithmetic of `f64` is the parameter
-- `F64`, and the facts of IEEE 754 that a theorem needs are the hypotheses `IsOrdered` and `IsExact`;
-- a fixed-point instance runs the tests. Unicode's tables are parameters too: `to_uppercase` is
-- `upper`, and `to_lowercase` and `is_alphanumeric` are `Unicode`. Text lengths are those of UTF-8.
--
-- A JSON object is an association list in which `insert` replaces; numbers other than `u64` are not
-- looked at, and parsing and printing are the parameter `Serde`. A byte stream is the list of what the
-- network delivers; a poll that is pending changes nothing and is not a step. Header values are taken
-- as they are: the `unwrap` of one that HTTP forbids would panic.
--
-- Loops are structural recursion. The failover loops recurse on the attempts left, `max_retries + 1`
-- or the least of three and the number of providers, as in the source. `pieces` takes the number of
-- polls, of which one more than there are bytes and items is enough. `to_string` takes at most 20 digits, enough for a `u64`. A score of the
-- semantic compactor is a difference of two sums, which stay far below the bound of `i32`.
--
-- Not modelled: parsing of YAML and JSON, the file watcher, the network, Redis and its script,
-- metrics and logs, and the layers of axum around the routes, which are I/O or third-party code; and,
-- of the program's own code, the records of src/models.rs, which no other module uses.
mod Common
pub mod Error
pub mod Float
pub mod RouteConfig
pub mod CircuitBreaker
pub mod Config
pub mod Middleware
pub mod Balancer
pub mod Compactor
pub mod Routing
pub mod Json
pub mod Client
pub mod Streaming
pub mod Router
pub mod Embeddings
pub mod VertexAuth
pub mod Transpiler
