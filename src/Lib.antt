-- ===== src/Lib.antt =====
-- A verification library for arbstr, a routing proxy for OpenAI-compatible chat completions.
--
-- The program. A request names a model. The router lists the configured providers that may serve
-- it (they list the model, are within the complexity tier, and are within the rate of the policy
-- that applies), cheapest first. The handlers ask the circuit breaker registry for a permit for
-- each candidate, and move up a tier when none is left. The retry loop sends the request to the
-- first candidate, up to three times with pauses, and then once to the second. A streamed answer is
-- passed on to the client by a spawned task, while an observer reads the usage out of its event
-- stream. Where a vault is configured, the handlers reserve an estimate before the request, and
-- settle or release the reservation after it. Every request leaves a row in a log, which a writer
-- task stores and a listing shows in pages.
--
-- The files. Names of types and functions are those of the code, in this language's spelling.
--   Prelude      Shared tests on numbers and texts, lists over native numbers, maps from texts.
--   Circuit      src/proxy/circuit_breaker.rs. Breaker is `CircuitBreakerInner`; Registry is
--                `CircuitBreakerRegistry`, a list of names with their breakers; Guard is `ProbeGuard`
--                with its `Drop`. Diagram is the transition diagram; Independence, Invariant, Permit,
--                Probe, RegistryLaws and Trip are about histories of their calls.
--   Router       src/router/selector.rs with the types of src/config.rs and src/error.rs. Types has
--                the types; Selector has `Router`, `select`, `select_candidates` and
--                `frontier_rates`; Cost has `actual_cost_sats`. Sorting, Unique, Candidates, Choice
--                and Rates have the proofs. Score is src/router/complexity.rs, with Complexity for
--                the tier of a score and ScoreLaws for the proofs. Discovery is
--                src/proxy/discovery.rs.
--   Request      src/proxy/types.rs. Types has `ChatCompletionRequest` with its methods; Laws is about
--                the prompt.
--   Retry        src/proxy/retry.rs. Attempts has `retry_with_fallback`, as a function that keeps
--                the shared vector of attempts and a trace of its pauses and requests; Header has
--                `format_retries_header`. Laws and Counts have the proofs.
--   Config       src/config.rs, over bytes. Expand has `expand_env_vars_with`; Keys has
--                `from_raw_with_lookup`, `validate` and `masked_prefix`. Template and KeysLaws have
--                the proofs.
--   Storage      src/storage/logging.rs, writer.rs, logs.rs, stats.rs. Table has the statements on the
--                table of requests, a list of rows; Writer is `DbWriter` with `writer_loop`, as steps
--                of the handlers and of the task; Query has the queries, and Stats the aggregates.
--                WriterLaws, Overtaken, LastSecond and Groups have the proofs.
--   Api          src/proxy/stats.rs, validation.rs, logs.rs, and the small handlers of
--                src/proxy/handlers.rs. Range has `resolve_time_range` and the filters' validation,
--                Logs has `logs_handler`, and Pages what holds of it; Stats has `stats_handler`, and
--                StatsLaws, over Weights, what holds of it; Health has `health` and `list_models`, Estimate
--                `cost_estimate`, and Listing `list_providers`.
--   Sse          src/proxy/stream.rs. Observer is `SseObserver`, over bytes; Bytes and Chunks have
--                the proofs; Json names what is used of the JSON crate and of text functions.
--   Vault        src/proxy/vault.rs. Client has `reserve` and `call_with_retry`; Reserve has the
--                estimate that is reserved; Pending has the stored settlements, `replay_one` with
--                the client's `settle` and `release`, and `reconcile_once`; Loop has
--                `reconciliation_loop`, as a function of its rounds. Calls, Reconcile, Eviction,
--                LoopLaws and LoopEnd have the proofs.
--   Handlers     src/proxy/handlers.rs. Resolve has `resolve_candidates`; Streaming has the task of
--                `handle_streaming_response` with the stream of `wrap_sse_stream` that it owns, and
--                the drop of that stream; Trailing has what the client receives, with
--                `build_trailing_sse_event`. Gate is the vault's part of `chat_completions`,
--                StreamingPath and RetryPath are its two paths, Provider has `send_to_provider`,
--                Response the headers and error responses, Serving the context and the rows of the
--                log, and Chat puts them together. What a request does besides answering is data:
--                its rows, its calls on the breakers (`Report`) and on the vault (`Charge`). Settle is
--                the task behind a charge, with the row it stores when the vault fails.
--                ResolveLaws, ProbeLeak, ProbeEnd, GateLeak, ChargeLaws, ChatLaws, ChatEnd, StreamingLaws,
--                TrailingLaws, Gate.Clean and Gate.Cover have the proofs.
--   Server       src/proxy/server.rs. Auth has `auth_middleware` and the routes of `create_router`;
--                StartUp has the state that `run_server` builds. Command is src/main.rs, and CommandLaws has
--                the proof.
--   Examples     Concrete runs.
--
-- How the code is read. A method on `&mut self` returns the new record. A lock that is taken and
-- given back within one method is not modelled; what other tasks do between two calls of one task is
-- an explicit argument. Time is a number of milliseconds (in Api.Range of seconds), and each reading
-- of a clock is an argument. A possible panic is a `none` or a constructor of the result. Counters of
-- `u32` and sums of `u64` keep their wrap-around, as in a release build.
--
-- Bounds and fuel. The loop of `resolve_candidates` has three tiers to try, so its fuel is three
-- rounds. The loop over complete lines in a buffer has the length of the buffer plus one as fuel:
-- every round takes at least the newline away. The expansion of references has the length of the
-- text plus one as fuel: every round takes a reference away. The loops of the retries and of the
-- vault calls are the code's own bounded loops, with three requests each. The reconciliation loop
-- runs for as long as the list of its rounds.
--
-- Arguments for what is not in the repository: the JSON crate's accessors and Rust's test for UTF-8
-- and `trim` (Sse.Json); `str::to_lowercase` (Router.Selector); the operations of `f64`
-- (Router.Cost); the answers of providers and of the vault, as functions of the number of the
-- request (Retry.Attempts, Vault.Client); whether statements on the database succeed
-- (Vault.Pending); the upstream's items and the client's presence (Handlers.Streaming); the other
-- tasks' calls, the clock and what wakes a waiting task (Handlers.Resolve); the endpoints that list
-- models (Router.Discovery); how texts are written and which may stand in a header
-- (Handlers.Serving); how the trailing event is written (Handlers.Trailing); the environment and
-- `str::to_uppercase` (Config.Keys); the reading and writing of times, SQLite's `LOWER` and `ORDER
-- BY` (Api.Logs, Storage.Query); SQLite's `TOTAL` and `AVG` and the order of its groups
-- (Storage.Stats); the order of a `HashSet` (Api.Stats); what the regular expressions find, and
-- further operations of `f64` (Router.Score); whether a statement of the writer succeeds
-- (Storage.Writer); when the deadline of the retries comes (Handlers.RetryPath); what each pass
-- over stored settlements meets (Vault.Loop); whether the pools open (Server.StartUp); what is read
-- from a file, its mode, and the writing of numbers (Server.Command).
--
-- Not modelled: logging and metrics; a client that goes away while its request is handled; the TOML
-- crate, the defaults it fills in and the reading of files; the rate limit, and what the web framework
-- does on other paths; the opening of the pools; the parsing of the command line, and the signals.
mod Prelude
pub mod Circuit
pub mod Router
pub mod Retry
pub mod Sse
pub mod Request
pub mod Config
pub mod Handlers
pub mod Vault
pub mod Storage
pub mod Api
pub mod Server
pub mod Examples
