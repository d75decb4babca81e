-- ===== src/Handlers/RetryPath.antt =====
-- src/proxy/handlers.rs: `handle_non_streaming_path`.
use arbstr.Prelude.{
  ℕ, zero, suc, ◌<>◌, false, Option, none, some, String, List, [], ◌∷◌, ◌++◌, map, find, str_eq,
  if◌then◌else◌,
}
use arbstr.Router.Types.{SelectedProvider, tier_text}
use arbstr.Router.Types
use arbstr.Router.Cost.{F64, to_msats}
use arbstr.Retry.Attempts.{
  AttemptRecord, CandidateInfo, Outcome, ok, err, Run, ended, panicked, retry_with_fallback,
}
use arbstr.Retry.Header.{format_retries_header}
use arbstr.Sse.Json.{Json}
use arbstr.Handlers.Resolve.{ResolvedCandidates}
use arbstr.Handlers.Response.{
  error_response, attach_arbstr_headers, attach_complexity, attach_retries_header,
}
use arbstr.Handlers.Provider.{
  RequestOutcome, RequestError, is_circuit_failure, Upstream, Writer, send_to_provider,
}
use arbstr.Handlers.StreamingPath.{guard_ok}
use arbstr.Handlers.Serving.{
  Report, fails, succeeds, probe_succeeds, probe_fails, settle, release, RequestContext, AppState,
  Clock, Texts, Served, last_error, log_error_to_db, log_success_to_db, if_reserved,
}

-- The retries, as the deadline leaves them: the result with the attempts, or the attempts that were
-- recorded by then.
pub data Timed (T E : Type 0) : Type 0 where
  finished : Outcome T E → List AttemptRecord → Timed T E
  elapsed : List AttemptRecord → Timed T E

abbrev pub take {ℓ} : {A : Type ℓ} → ℕ → List A → List A
take zero xs = []
take (suc n) [] = []
take (suc n) (x ∷ xs) = x ∷ take n xs

-- `timeout_at`: the deadline may come when a number of attempts have been recorded. A panic of the
-- retries is one of the path.
unfoldable pub timeout_at : {T E : Type 0} → Option ℕ → Run T E → Option (Timed T E)
timeout_at cut panicked = none
timeout_at none (ended r attempts actions) = some (finished r attempts)
timeout_at (some k) (ended r attempts actions) = some (elapsed (take k attempts))

abbrev pub recorded : {T E : Type 0} → Timed T E → List AttemptRecord
recorded (finished r attempts) = attempts
recorded (elapsed attempts) = attempts

abbrev last_provider : List AttemptRecord → Option String
last_provider [] = none
last_provider (a ∷ []) = some a.provider_name
last_provider (a ∷ b ∷ more) = last_provider (b ∷ more)

abbrev pub or_zero : Option ℕ → ℕ
or_zero none = 0
or_zero (some n) = n

abbrev timeout_text : String
timeout_text = "Request timed out after 30 seconds (retry budget exhausted)"

module _ (j : Json) (f : F64) (w : Writer j.Value f.Carrier) (x : Texts f.Carrier) where
  open j use {Value}
  open f use {Carrier}

  abbrev pub Sent : Type 0
  Sent = Outcome (RequestOutcome Value Carrier) RequestError

  -- The closure that is retried: the provider of the candidate's name, and its answer to the
  -- `n`-th request.
  unfoldable pub send_candidate :
      List SelectedProvider → (ℕ → SelectedProvider → Upstream Value) → ℕ → CandidateInfo → Sent
  send_candidate candidates upstream n info =
      elim (find (λ p. str_eq p.name info.name) candidates) [
        | none ↦ err (record {
          error = Types.internal "candidate info did not match any provider";
          provider_name = some info.name;
          status_code = 500;
          message = "Internal routing error";
        })
        | some p ↦ send_to_provider j f w x.status_text p false (upstream n p)
      ]

  unfoldable pub attempt_reports : List AttemptRecord → List Report
  attempt_reports [] = []
  attempt_reports (a ∷ more) =
      let rest = attempt_reports more in
      if is_circuit_failure a.status_code
      then fails a.provider_name (last_error "5xx" ("HTTP " <> x.show a.status_code)) ∷ rest
      else rest

  -- What is reported of the result: the probe's guard is resolved if there is one; a success of
  -- another provider than the probe's is a plain success.
  unfoldable pub result_reports :
      Option String → Timed (RequestOutcome Value Carrier) RequestError → List Report
  unfolding guard_ok
  result_reports none (finished (ok o) attempts) = succeeds o.provider_name ∷ []
  result_reports none (finished (err e) attempts) = []
  result_reports none (elapsed attempts) = []
  result_reports (some probe) (finished (ok o) attempts) =
      if str_eq o.provider_name probe
      then probe_succeeds probe ∷ []
      else succeeds o.provider_name
        ∷ (probe_fails probe (last_error "not_reached" "different provider succeeded") ∷ [])
  result_reports (some probe) (finished (err e) attempts) =
      probe_fails probe (last_error "5xx" "all providers failed") ∷ []
  result_reports (some probe) (elapsed attempts) =
      probe_fails probe (last_error "timeout" "retry chain timed out") ∷ []

  -- The path after the retries.
  unfoldable pub retry_served :
      AppState
      → RequestContext
      → Clock
      → ResolvedCandidates Carrier
      → List Report
      → Timed (RequestOutcome Value Carrier) RequestError
      → Served Value Carrier
  retry_served s ctx clock resolved reports (elapsed attempts) = record {
    response =
        attach_retries_header x.is_header_value x.show x.fixed
          (attach_arbstr_headers x.is_header_value x.show x.fixed
            (record (error_response (Types.provider timeout_text)) { status = 504 })
            ctx.correlation_id clock.latency_ms none none false)
          (format_retries_header x.show attempts);
    logs =
        log_error_to_db s ctx clock (last_provider attempts) 504 timeout_text
          resolved.complexity_score (some (tier_text resolved.tier));
    reports = reports;
    charges = if_reserved s.vault ctx.reservation_id (λ rid. release rid "timeout");
  }
  retry_served s ctx clock resolved reports (finished (ok o) attempts) = record {
    response =
        attach_retries_header x.is_header_value x.show x.fixed
          (attach_complexity x.is_header_value x.show x.fixed
            (attach_arbstr_headers x.is_header_value x.show x.fixed o.response ctx.correlation_id
              clock.latency_ms (some o.provider_name) o.cost_sats false)
            resolved.complexity_score resolved.tier)
          (format_retries_header x.show attempts);
    logs =
        log_success_to_db s ctx clock o resolved.complexity_score (some (tier_text resolved.tier));
    reports = reports;
    charges = if_reserved s.vault ctx.reservation_id (λ rid.
        settle rid (elim o.cost_sats [ none ↦ 0 | some c ↦ to_msats f c ])
          (record {
            tokens_in = o.input_tokens;
            tokens_out = o.output_tokens;
            provider = o.provider_name;
            latency_ms = clock.latency_ms;
          }));
  }
  retry_served s ctx clock resolved reports (finished (err e) attempts) = record {
    response =
        attach_retries_header x.is_header_value x.show x.fixed
          (attach_arbstr_headers x.is_header_value x.show x.fixed (error_response e.error)
            ctx.correlation_id clock.latency_ms e.provider_name none false)
          (format_retries_header x.show attempts);
    logs =
        log_error_to_db s ctx clock e.provider_name e.status_code e.message
          resolved.complexity_score (some (tier_text resolved.tier));
    reports = reports;
    charges =
        if_reserved s.vault ctx.reservation_id
          (λ rid. release rid ("provider_error_" <> x.show e.status_code));
  }

  unfoldable pub timed_served :
      AppState
      → RequestContext
      → Clock
      → ResolvedCandidates Carrier
      → Option (Timed (RequestOutcome Value Carrier) RequestError)
      → Option (Served Value Carrier)
  timed_served s ctx clock resolved none = none
  timed_served s ctx clock resolved (some r) = some (
      retry_served s ctx clock resolved
        (attempt_reports (recorded r) ++ result_reports resolved.probe_provider r) r)

  -- `handle_non_streaming_path`; `none` is a panic.
  unfoldable pub handle_non_streaming_path :
      AppState
      → RequestContext
      → Clock
      → Option ℕ
      → ResolvedCandidates Carrier
      → (ℕ → SelectedProvider → Upstream Value)
      → Option (Served Value Carrier)
  unfolding timed_served retry_served attempt_reports result_reports
  handle_non_streaming_path s ctx clock cut resolved upstream = timed_served s ctx clock resolved (
      timeout_at cut (
        retry_with_fallback (λ e. e.status_code) (send_candidate resolved.candidates upstream)
          (map (λ (p : SelectedProvider). let i : CandidateInfo = record { name = p.name } in i)
            resolved.candidates)
          []))
