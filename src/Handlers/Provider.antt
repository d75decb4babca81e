-- ===== src/Handlers/Provider.antt =====
-- src/proxy/handlers.rs: `send_to_provider` and the reading of an answer that is not streamed. The
-- provider's answer, and what the JSON crate reads and writes, are arguments. A response that is
-- built from fixed parts is always built.
use arbstr.Prelude.{
  ℕ, ◌<>◌, ◌%◌, ◌^◌, ◌&&◌, Bool, Option, none, some, String, List, [], leb, if◌then◌else◌,
}
use arbstr.Router.Types.{SelectedProvider, Error}
use arbstr.Router.Types
use arbstr.Router.Cost.{F64, actual_cost_sats}
use arbstr.Retry.Attempts.{Outcome, ok, err}
use arbstr.Sse.Json.{Json}
use arbstr.Request.Types.{ChatCompletionRequest, ensure_stream_options}
use arbstr.Handlers.Streaming.{Item}
use arbstr.Handlers.Response.{Response, json, event_stream}

-- The outcome of a request that succeeded, with what is logged of it.
pub record RequestOutcome (V C : Type 0) : Type 0 where
  pub response : Response V
  pub provider_name : String
  pub input_tokens : Option ℕ
  pub output_tokens : Option ℕ
  pub cost_sats : Option C
  pub provider_cost_sats : Option C

pub record RequestError : Type 0 where
  pub error : Error
  pub provider_name : Option String
  pub status_code : ℕ
  pub message : String

-- `is_circuit_failure`.
unfoldable pub is_circuit_failure : ℕ → Bool
is_circuit_failure s = leb 500 s && leb s 599

-- A provider's answer: its status, its body as text, as JSON (or the error's text), and as the
-- items of a stream; or a failure to reach it.
pub data Upstream (V : Type 0) : Type 0 where
  unreachable : String → Upstream V
  answered : ℕ → String → Outcome V String → List Item → Upstream V

-- What the JSON crate does with an answer beside `Json`: `as_f64`, the insertion of a field into an
-- object (anything else is left as it is), and whether a value can be written, or the error's text.
pub record Writer (V C : Type 0) : Type 0 where
  pub as_f64 : V → Option C
  pub set_field : String → String → V → V
  pub write_error : V → Option String

-- What is posted to a provider.
pub record Posted (V F : Type 0) : Type 0 where
  pub url : String
  pub idempotency_key : String
  pub authorization : Option String
  pub request : ChatCompletionRequest V F

bearer : Option String → Option String
bearer none = none
bearer (some key) = some ("Bearer " <> key)

-- The upstream request; `trim_end` takes the slashes off the end of the URL.
unfoldable pub upstream_request :
    {V F : Type 0}
    → (String → String)
    → ChatCompletionRequest V F
    → SelectedProvider
    → String
    → Bool
    → Posted V F
unfolding bearer
upstream_request trim_end request p correlation_id is_streaming = record {
  url = trim_end p.url <> "/chat/completions";
  idempotency_key = correlation_id;
  authorization = bearer p.api_key;
  request = if is_streaming then ensure_stream_options request else request;
}

module _ (j : Json) (f : F64) (w : Writer j.Value f.Carrier) where
  open j use {Value, get, as_u64}
  open f use {Carrier}

  abbrev and_then {ℓ κ} : {A : Type ℓ} {B : Type κ} → Option A → (A → Option B) → Option B
  and_then none k = none
  and_then (some a) k = k a

  tokens_of : Value → Option (ℕ × ℕ)
  tokens_of usage = and_then (and_then (get "prompt_tokens" usage) as_u64) (λ i.
      and_then (and_then (get "completion_tokens" usage) as_u64)
        (λ o. some (i % 2 ^ 32, o % 2 ^ 32)))

  -- `extract_usage`.
  unfoldable pub extract_usage : Value → Option (ℕ × ℕ)
  unfolding tokens_of
  extract_usage response = and_then (get "usage" response) tokens_of

  failed {ℓ} : {A : Type ℓ} → SelectedProvider → Error → ℕ → String → Outcome A RequestError
  failed p e status message =
      err
        (record { error = e; provider_name = some p.name; status_code = status; message = message })

  outcome_of : SelectedProvider → Value → Option (ℕ × ℕ) → RequestOutcome Value Carrier
  outcome_of p body usage = record {
    response = record { status = 200; headers = []; body = json body };
    provider_name = p.name;
    input_tokens = elim usage [ none ↦ none | some (i, o) ↦ some i ];
    output_tokens = elim usage [ none ↦ none | some (i, o) ↦ some o ];
    cost_sats = elim usage [
      | none ↦ none
      | some (i, o) ↦ some (actual_cost_sats f i o p.input_rate p.output_rate p.base_fee)
    ];
    provider_cost_sats = and_then (and_then (get "usage" body) (get "total_cost")) w.as_f64;
  }

  written :
      SelectedProvider → Value → Option String → Outcome (RequestOutcome Value Carrier) RequestError
  unfolding failed outcome_of
  written p response none = ok (record (outcome_of p response (extract_usage response)) {
    response = record {
      status = 200;
      headers = [];
      body = json (w.set_field "arbstr_provider" p.name response);
    };
  })
  written p response (some e) =
      failed p (Types.internal ("Failed to serialize response: " <> e)) 500
        ("Failed to serialize response: " <> e)

  -- `handle_non_streaming_response`.
  unfoldable pub handle_non_streaming_response :
      Outcome Value String → SelectedProvider → Outcome (RequestOutcome Value Carrier) RequestError
  unfolding written failed
  handle_non_streaming_response (err e) p =
      failed p (Types.provider ("Failed to parse response from '" <> p.name <> "': " <> e)) 502
        ("Failed to parse response: " <> e)
  handle_non_streaming_response (ok response) p =
      written p response (w.write_error (w.set_field "arbstr_provider" p.name response))

  -- What `handle_streaming_response` returns; the task that it spawns is modelled by itself.
  unfoldable pub streaming_outcome : SelectedProvider → RequestOutcome Value Carrier
  streaming_outcome p = record {
    response = record { status = 200; headers = []; body = event_stream };
    provider_name = p.name;
    input_tokens = none;
    output_tokens = none;
    cost_sats = none;
    provider_cost_sats = none;
  }

  -- `send_to_provider`, from the provider's answer; `status_text` is a status as it is displayed.
  unfoldable pub send_to_provider :
      (ℕ → String)
      → SelectedProvider
      → Bool
      → Upstream Value
      → Outcome (RequestOutcome Value Carrier) RequestError
  unfolding failed handle_non_streaming_response streaming_outcome
  send_to_provider status_text p is_streaming (unreachable e) =
      failed p (Types.provider ("Failed to reach provider '" <> p.name <> "': " <> e)) 502
        ("Failed to reach provider: " <> e)
  send_to_provider status_text p is_streaming (answered status body parsed items) =
      if leb 200 status && leb status 299
      then (if is_streaming
          then ok (streaming_outcome p)
          else handle_non_streaming_response parsed p)
      else failed p
          (Types.provider
            ("Provider '" <> p.name <> "' returned " <> status_text status <> ": " <> body))
          status ("Provider returned " <> status_text status)
