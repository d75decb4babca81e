-- ===== src/Examples/Files.antt =====
-- Runs of the request's prompt, of the retries' count, of the configuration, of the writer of the
-- database, of the pages of the log and of the health.
use arbstr.Prelude.{
  ℕ, ◌+◌, ◌^◌, ◌≤◌, ◌≡◌, refl, true, false, none, some, Option, String, List, [], ◌∷◌, All, length,
  map, is_empty, arith,
}
use arbstr.Retry.Attempts.{AttemptRecord}
use arbstr.Retry.Header.{count_all}
use arbstr.Retry.Counts.{counted, attempts_on, first_seen, count_all-counts}
use arbstr.Router.Types.{standard}
use arbstr.Sse.Observer.{ascii}
use arbstr.Config.Expand.{Bytes, split_reference, split_brace, expand_env_vars_with}
use arbstr.Config.Template.{Piece, render, substitute, expand_env_vars_with-render}
use arbstr.Config.Keys.{
  ApiKey, literal, Provider, Settings, load, from_raw_with_lookup, load_providers, resolve_key,
  with_key, validate_providers,
}
use arbstr.Config.KeysLaws.{AllLoaded, load-AllLoaded}
use arbstr.Storage.Logging.{RequestLog}
use arbstr.Storage.Table.{StreamCompletion}
use arbstr.Storage.Writer.{WriterEvent, sends, receives, insert, completion, writer_run}
use arbstr.Storage.WriterLaws.{accepted, execute_all, state, writer_run-accepted}
use arbstr.Storage.Overtaken.{completed, completion_order}
use arbstr.Storage.Query.{by_timestamp, descending, Filters}
use arbstr.Api.Logs.{LogsResponse, logs_page}
use arbstr.Api.Pages.{far_page-repeats}

abbrev failed_at : String → AttemptRecord
failed_at name = record { provider_name = name; status_code = 503 }

abbrev three_attempts : List AttemptRecord
three_attempts = failed_at "alpha" ∷ failed_at "alpha" ∷ failed_at "beta" ∷ []

count_all-counts_example :
    ((name : String) → counted name (count_all three_attempts []) ≡ attempts_on name three_attempts)
    × (map (λ e. e.0) (count_all three_attempts []) ≡ first_seen [] three_attempts)
count_all-counts_example = count_all-counts three_attempts (omega arith)

abbrev pub one_variable : Bytes → Option Bytes
one_variable name = some (ascii "v")

abbrev pieces : List Piece
pieces = (ascii "k-", ascii "KEY") ∷ []

expand_env_vars_with-render_example :
    expand_env_vars_with one_variable (render pieces (ascii "-z")) (ascii "alpha")
    ≡ substitute one_variable (render pieces (ascii "-z")) (ascii "alpha") pieces (ascii "-z")
unfolding split_reference split_brace
expand_env_vars_with-render_example =
    expand_env_vars_with-render one_variable (ascii "alpha") pieces (ascii "-z")
      ((refl, refl, refl), tt) refl

-- A provider with a literal key, and the key it has after loading.
abbrev pub raw_provider : Provider Bytes
raw_provider = record {
  name = ascii "alpha";
  url = ascii "https://a";
  api_key = some (ascii "cashu-key");
  models = [];
  input_rate = 5;
  output_rate = 15;
  base_fee = 0;
  tier = standard;
  auto_discover = false;
}

abbrev raw_file : Settings Bytes ℕ
raw_file = record { providers = raw_provider ∷ []; others = 8 }

abbrev pub loaded_provider : Provider ApiKey
loaded_provider = record {
  name = ascii "alpha";
  url = ascii "https://a";
  api_key = some (record { secret = ascii "cashu-key" });
  models = [];
  input_rate = 5;
  output_rate = 15;
  base_fee = 0;
  tier = standard;
  auto_discover = false;
}

abbrev loaded_file : Settings ApiKey ℕ
loaded_file = record { providers = loaded_provider ∷ []; others = 8 }

abbrev pub unchanged : Bytes → Bytes
unchanged s = s

load-AllLoaded_example :
    AllLoaded unchanged one_variable
      (raw_provider ∷ [])
      (loaded_provider ∷ [])
      ((ascii "alpha", literal) ∷ [])
    × All (λ p. is_empty p.url ≡ false) (loaded_provider ∷ [])
    × (loaded_file.others ≡ raw_file.others)
unfolding load from_raw_with_lookup load_providers resolve_key with_key split_reference
    validate_providers
load-AllLoaded_example =
    load-AllLoaded unchanged one_variable raw_file loaded_file ((ascii "alpha", literal) ∷ []) refl

abbrev key_of : String → ApiKey
key_of s = record { secret = ascii s }

abbrev pub log_of : String → RequestLog ℕ
log_of id = record {
  correlation_id = id;
  timestamp = "2025-01-01T00:00:00Z";
  model = "gpt-4o";
  provider = some "alpha";
  policy = none;
  streaming = true;
  input_tokens = none;
  output_tokens = none;
  cost_sats = none;
  provider_cost_sats = none;
  latency_ms = 12;
  success = true;
  error_status = none;
  error_message = none;
  complexity_score = none;
  tier = some "standard";
}

abbrev streamed : StreamCompletion ℕ
streamed = record {
  input_tokens = some 10;
  output_tokens = some 20;
  cost_sats = some 3;
  stream_duration_ms = 40;
  success = true;
  error_message = none;
  complexity_score = none;
  tier = some "standard";
}

abbrev busy : List (WriterEvent ℕ)
busy = sends (insert (log_of "c1")) ∷ sends (insert (log_of "c2")) ∷ receives ∷ []

writer_run-accepted_example :
    let w = writer_run 1 (λ n. true) busy (state 1 (λ n. true) [] [] 0) in
    (length w.queue ≤ 1)
    × (w.queue ≡ []
        → w.table
          ≡ execute_all 1
              (λ n. true)
              0
              (accepted 1 (λ n. true) busy (state 1 (λ n. true) [] [] 0))
              [])
writer_run-accepted_example = writer_run-accepted 1 (λ n. true) busy []

completion_order_example :
    (execute_all 0 (λ n. true) 0 (insert (log_of "c1") ∷ completion "c1" streamed ∷ []) []
      ≡ completed (log_of "c1") streamed ∷ [])
    × (execute_all 0 (λ n. true) 0 (completion "c1" streamed ∷ insert (log_of "c1") ∷ []) []
        ≡ record { log = log_of "c1"; stream_duration_ms = none } ∷ [])
completion_order_example = completion_order (log_of "c1") streamed [] tt

abbrev pub everything : Filters
everything = record {
  since = "2025";
  until = "2026";
  model = none;
  provider = none;
  success = none;
  streaming = none;
}

far_page-repeats_example :
    LogsResponse.entries (
      logs_page
        (λ s. s)
        (λ column direction t. t)
        everything
        by_timestamp
        descending
        (1 + 2 ^ 26)
        64
        (record { log = log_of "c1"; stream_duration_ms = none } ∷ []))
    ≡ LogsResponse.entries (
        logs_page
          (λ s. s)
          (λ column direction t. t)
          everything
          by_timestamp
          descending
          1
          64
          (record { log = log_of "c1"; stream_duration_ms = none } ∷ []))
far_page-repeats_example =
    far_page-repeats (λ s. s) (λ column direction t. t) everything by_timestamp descending 1
      (record { log = log_of "c1"; stream_duration_ms = none } ∷ []) (omega arith) (omega arith)
