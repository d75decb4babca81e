-- ===== src/Handlers/Serving.antt =====
-- src/proxy/handlers.rs: what a request that has its candidates does: the streaming path, and the
-- path with retries. The calls on the circuit breakers are kept as reports, the charges to the
-- vault and the rows of the log as lists; the clock, and whether and where the deadline cuts the
-- retries off, are arguments.
use arbstr.Prelude.{ℕ, Bool, true, false, Option, none, some, String, List, [], ◌∷◌, if◌then◌else◌}
use arbstr.Circuit.Breaker.{LastError}
use arbstr.Circuit.RegistryLaws
use arbstr.Circuit.RegistryLaws.{Call}
use arbstr.Storage.Logging.{RequestLog}
use arbstr.Handlers.Response.{Response}
use arbstr.Handlers.Provider.{RequestOutcome}

-- What the path tells the circuit breakers.
pub data Report : Type 0 where
  fails : String → LastError → Report
  succeeds : String → Report
  probe_succeeds : String → Report
  probe_fails : String → LastError → Report

-- The call of the registry that a report is, at a time.
abbrev pub call : ℕ → Report → Call
call now (fails name e) = RegistryLaws.fails now name e
call now (succeeds name) = RegistryLaws.succeeds now name
call now (probe_succeeds name) = RegistryLaws.probe_succeeds now name
call now (probe_fails name e) = RegistryLaws.probe_fails now name e

pub record SettleMetadata : Type 0 where
  pub tokens_in : Option ℕ
  pub tokens_out : Option ℕ
  pub provider : String
  pub latency_ms : ℕ

-- What is asked of the vault for a reservation.
pub data Charge : Type 0 where
  settle : String → ℕ → SettleMetadata → Charge
  release : String → String → Charge

pub record RequestContext : Type 0 where
  pub correlation_id : String
  pub model : String
  pub policy_name : Option String
  pub is_streaming : Bool
  pub reservation_id : Option String

-- What of the `VaultClient` matters here.
pub record VaultSettings : Type 0 where
  pub default_reserve_tokens : ℕ
  pub backpressure : Bool

-- What of `AppState` matters here: whether there is a database writer, and the vault, if there is one.
pub record AppState : Type 0 where
  pub db_writer : Bool
  pub vault : Option VaultSettings

pub record Clock : Type 0 where
  pub latency_ms : ℕ
  pub timestamp : String
  pub stream_duration_ms : ℕ

-- How texts are written: which can stand in a header, a number, an `f64` with a number of decimals,
-- and a status with its reason.
pub record Texts (C : Type 0) : Type 0 where
  pub is_header_value : String → Bool
  pub show : ℕ → String
  pub fixed : ℕ → C → String
  pub status_text : ℕ → String

-- The response, and what else the request does.
pub record Served (V C : Type 0) : Type 0 where
  pub response : Response V
  pub logs : List (RequestLog C)
  pub reports : List Report
  pub charges : List Charge

abbrev pub last_error : String → String → LastError
last_error error_type message = record { error_type = error_type; message = message }

module _ {C : Type 0} (s : AppState) (ctx : RequestContext) (clock : Clock) where
  -- `log_error_to_db`.
  unfoldable pub log_error_to_db :
      Option String → ℕ → String → Option C → Option String → List (RequestLog C)
  log_error_to_db provider status_code message complexity_score tier =
      if s.db_writer
      then record {
        correlation_id = ctx.correlation_id;
        timestamp = clock.timestamp;
        model = ctx.model;
        provider = provider;
        policy = ctx.policy_name;
        streaming = ctx.is_streaming;
        input_tokens = none;
        output_tokens = none;
        cost_sats = none;
        provider_cost_sats = none;
        latency_ms = clock.latency_ms;
        success = false;
        error_status = some status_code;
        error_message = some message;
        complexity_score = complexity_score;
        tier = tier;
      }
        ∷ []
      else []

  -- `log_success_to_db`.
  unfoldable pub log_success_to_db :
      {V : Type 0} → RequestOutcome V C → Option C → Option String → List (RequestLog C)
  log_success_to_db o complexity_score tier =
      if s.db_writer
      then record {
        correlation_id = ctx.correlation_id;
        timestamp = clock.timestamp;
        model = ctx.model;
        provider = some o.provider_name;
        policy = ctx.policy_name;
        streaming = ctx.is_streaming;
        input_tokens = o.input_tokens;
        output_tokens = o.output_tokens;
        cost_sats = o.cost_sats;
        provider_cost_sats = o.provider_cost_sats;
        latency_ms = clock.latency_ms;
        success = true;
        error_status = none;
        error_message = none;
        complexity_score = complexity_score;
        tier = tier;
      }
        ∷ []
      else []

-- `if let (Some(vault), Some(rid))`.
abbrev pub if_reserved : Option VaultSettings → Option String → (String → Charge) → List Charge
if_reserved none rid k = []
if_reserved (some vault) none k = []
if_reserved (some vault) (some rid) k = k rid ∷ []

abbrev pub name_or_unknown : Option String → String
name_or_unknown none = "unknown"
name_or_unknown (some name) = name
