-- ===== src/Handlers/StreamingPath.antt =====
-- src/proxy/handlers.rs: `handle_streaming_path`, with the task that it leaves behind.
use arbstr.Prelude.{
  ℕ, ◌<>◌, Bool, true, Option, none, some, String, List, [], ◌∷◌, ◌++◌, str_eq, if◌then◌else◌,
}
use arbstr.Router.Types.{SelectedProvider, tier_text}
use arbstr.Router.Cost.{F64}
use arbstr.Retry.Attempts.{Outcome, ok, err}
use arbstr.Sse.Json.{Json, Utf8}
use arbstr.Handlers.Resolve.{ResolvedCandidates}
use arbstr.Handlers.Streaming.{Billing, settles, releases, no_billing, Ended, stream_task}
use arbstr.Handlers.Response.{error_response, attach_arbstr_headers, attach_complexity}
use arbstr.Handlers.Provider.{
  RequestOutcome, RequestError, is_circuit_failure, Upstream, answered, unreachable, Writer,
  send_to_provider,
}
use arbstr.Handlers.Serving.{
  Report, fails, succeeds, probe_succeeds, probe_fails, Charge, settle, release, VaultSettings,
  RequestContext, AppState, Clock, Texts, Served, last_error, log_error_to_db, log_success_to_db,
  if_reserved, name_or_unknown,
}

-- What the probe's guard records, if there is one, after a success and after an error.
unfoldable pub guard_ok : String → Option String → List Report
guard_ok name none = []
guard_ok name (some probe) =
    if str_eq name probe
    then probe_succeeds probe ∷ []
    else probe_fails probe (last_error "not_reached" "different provider succeeded") ∷ []

guard_err : ℕ → String → Option String → List Report
guard_err status http none = []
guard_err status http (some probe) =
    probe_fails probe (last_error (if is_circuit_failure status then "5xx" else "non_5xx") http)
    ∷ []

module _ (j : Json) (t : Utf8) (f : F64) (w : Writer j.Value f.Carrier) (x : Texts f.Carrier) where
  open j use {Value}
  open f use {Carrier}

  -- The reports of the `match &result`.
  unfoldable pub stream_reports :
      Option String → Outcome (RequestOutcome Value Carrier) RequestError → List Report
  unfolding guard_ok guard_err
  stream_reports probe (ok o) = succeeds o.provider_name ∷ guard_ok o.provider_name probe
  stream_reports probe (err e) =
      let http = "HTTP " <> x.show e.status_code in
      (if is_circuit_failure e.status_code
        then fails (name_or_unknown e.provider_name) (last_error "5xx" http) ∷ []
        else [])
      ++ guard_err e.status_code http probe

  -- The charge of the spawned task.
  charge_of : String → ℕ → Ended Carrier → Billing → List Charge
  charge_of provider ms e no_billing = []
  charge_of provider ms e (releases rid reason) = release rid reason ∷ []
  charge_of provider ms e (settles rid msats) =
      settle rid msats (record {
        tokens_in = e.row.input_tokens;
        tokens_out = e.row.output_tokens;
        provider = provider;
        latency_ms = ms;
      })
      ∷ []

  -- The reservation that the task has: `if let (Some(vault), Some(rid))`.
  abbrev held : Option VaultSettings → Option String → Option String
  held none rid = none
  held (some vault) rid = rid

  -- The items of an answer, and the task over them.
  unfoldable pub spawned :
      Option VaultSettings
      → Option String
      → ℕ
      → (ℕ → Bool)
      → SelectedProvider
      → Upstream Value
      → List Charge
  unfolding charge_of
  spawned vault rid duration_ms accepts p (unreachable e) = []
  spawned vault rid duration_ms accepts p (answered status body parsed items) =
      let e = stream_task j t f accepts items p (held vault rid) in
      charge_of p.name duration_ms e e.billing

  -- `handle_streaming_path`, after the answer.
  unfoldable pub stream_served :
      AppState
      → RequestContext
      → Clock
      → ResolvedCandidates Carrier
      → List Charge
      → Outcome (RequestOutcome Value Carrier) RequestError
      → Served Value Carrier
  unfolding stream_reports
  stream_served s ctx clock resolved task (ok o) = record {
    response =
        attach_complexity x.is_header_value x.show x.fixed
          (attach_arbstr_headers x.is_header_value x.show x.fixed o.response ctx.correlation_id
            clock.latency_ms (some o.provider_name) o.cost_sats true)
          resolved.complexity_score resolved.tier;
    logs =
        log_success_to_db s ctx clock o resolved.complexity_score (some (tier_text resolved.tier));
    reports = stream_reports resolved.probe_provider (ok o);
    charges = task;
  }
  stream_served s ctx clock resolved task (err e) = record {
    response =
        attach_arbstr_headers x.is_header_value x.show x.fixed (error_response e.error)
          ctx.correlation_id clock.latency_ms e.provider_name none true;
    logs =
        log_error_to_db s ctx clock e.provider_name e.status_code e.message
          resolved.complexity_score (some (tier_text resolved.tier));
    reports = stream_reports resolved.probe_provider (err e);
    charges =
        if_reserved s.vault ctx.reservation_id
          (λ rid. release rid ("streaming_send_error_" <> x.show e.status_code));
  }

  -- `handle_streaming_path`: one request to the first candidate; without a candidate it panics.
  unfoldable pub handle_streaming_path :
      AppState
      → RequestContext
      → Clock
      → (ℕ → Bool)
      → ResolvedCandidates Carrier
      → (SelectedProvider → Upstream Value)
      → Option (Served Value Carrier)
  unfolding stream_served
  handle_streaming_path s ctx clock accepts resolved upstream = elim resolved.candidates [
    | [] ↦ none
    | p ∷ ps ↦ some (
        stream_served s ctx clock resolved
          (spawned s.vault ctx.reservation_id clock.stream_duration_ms accepts p (upstream p))
          (send_to_provider j f w x.status_text p true (upstream p)))
  ]
