-- ===== src/Handlers/ChatLaws.antt =====
-- src/proxy/handlers.rs: how `chat_completions` ends once its candidates are resolved.
use arbstr.Prelude.{
  ℕ, ◌≡◌, refl, ap, Bool, true, false, Option, none, some, String, List, [], ◌∷◌, length,
}
use arbstr.Circuit.Registry.{Registry}
use arbstr.Router.Types.{SelectedProvider, Tier}
use arbstr.Router.Selector.{Router}
use arbstr.Router.Cost.{F64}
use arbstr.Request.Types.{ChatCompletionRequest}
use arbstr.Retry.Attempts.{AttemptRecord, Action, Outcome, ok, err, ended}
use arbstr.Retry.Laws.{retry_with_fallback-walk}
use arbstr.Sse.Json.{Json, Utf8}
use arbstr.Vault.Client.{VaultResult, Reservation}
use arbstr.Handlers.Resolve.{ResolvedCandidates, resolved}
use arbstr.Handlers.Provider.{
  RequestOutcome, RequestError, Upstream, Writer, Posted, send_to_provider,
}
use arbstr.Handlers.Serving.{Report, Charge, RequestContext, AppState, Clock, Texts, Served}
use arbstr.Handlers.Rows.{rows, length-log_error_to_db, length-log_success_to_db}
use arbstr.Handlers.StreamingPath.{stream_served, handle_streaming_path}
use arbstr.Handlers.RetryPath.{
  take, Timed, finished, elapsed, retry_served, timeout_at, timed_served, handle_non_streaming_path,
  send_candidate,
}
use arbstr.Handlers.Gate.{Gate, passes, refuses, gate_panics}
use arbstr.Handlers.Gate.Clean.{IsClean, some_resolved, vault_gate-IsClean}
use arbstr.Handlers.ChargeLaws.{Settled, stream_served-Settled, retry_served-Settled}
use arbstr.Handlers.Chat.{answers, ending, path, serve, gate_of, after_resolution}

-- What a request is charged: exactly one charge for its reservation, where the gate passed with
-- one, and nothing where it passed without one or refused.
abbrev pub Charged : {V F C : Type 0} → AppState → Gate V F C → List Charge → Type 0
Charged s (passes ctx request) charges = Settled s.vault ctx.reservation_id charges
Charged s (refuses served) charges = charges ≡ []
Charged s gate_panics charges = ⊥

module _ (j : Json) (t : Utf8) (f : F64) (w : Writer j.Value f.Carrier) (x : Texts f.Carrier)
    (s : AppState) (clock : Clock) (accepts : ℕ → Bool) where
  open j use {Value}
  open f use {Carrier}

  length-stream_served :
      (ctx : RequestContext) (rc : ResolvedCandidates Carrier) (task : List Charge)
      (r : Outcome (RequestOutcome Value Carrier) RequestError)
      → length (stream_served j t f w x s ctx clock rc task r).logs ≡ rows s
  unfolding stream_served
  length-stream_served ctx rc task (ok o) = length-log_success_to_db s ctx clock o _ _
  length-stream_served ctx rc task (err e) = length-log_error_to_db s ctx clock _ _ _ _ _

  length-retry_served :
      (ctx : RequestContext) (rc : ResolvedCandidates Carrier) (reports : List Report)
      (r : Timed (RequestOutcome Value Carrier) RequestError)
      → length (retry_served j f w x s ctx clock rc reports r).logs ≡ rows s
  unfolding retry_served
  length-retry_served ctx rc reports (elapsed attempts) =
      length-log_error_to_db s ctx clock _ _ _ _ _
  length-retry_served ctx rc reports (finished (ok o) attempts) =
      length-log_success_to_db s ctx clock o _ _
  length-retry_served ctx rc reports (finished (err e) attempts) =
      length-log_error_to_db s ctx clock _ _ _ _ _

  -- An outcome of a path: a response with one row, and charges that settle the reservation.
  abbrev Closed : RequestContext → Option (Served Value Carrier) → Type 0
  Closed ctx o =
      (served : Served Value Carrier) × (o ≡ some served)
      × Settled s.vault ctx.reservation_id served.charges
      × (length served.logs ≡ rows s)

  module _ (c : SelectedProvider) (cs : List SelectedProvider) (probe : Option String)
      (score : Option Carrier) (tier : Tier) (ctx : RequestContext) where
    streaming-Closed :
        (upstream : SelectedProvider → Upstream Value)
        → Closed ctx (
            handle_streaming_path j t f w x s ctx clock accepts
              (some_resolved c cs probe score tier)
              upstream)
    unfolding handle_streaming_path
    streaming-Closed upstream = (
      _,
      refl,
      stream_served-Settled j t f w x s ctx clock accepts (some_resolved c cs probe score tier) c
          (upstream c),
      length-stream_served ctx (some_resolved c cs probe score tier) _
          (send_to_provider j f w x.status_text c true (upstream c)),
    )

    timed-Closed :
        (r : Timed (RequestOutcome Value Carrier) RequestError)
        → Closed ctx
            (timed_served j f w x s ctx clock (some_resolved c cs probe score tier) (some r))
    unfolding timed_served
    timed-Closed r = (
      _,
      refl,
      retry_served-Settled j t f w x s ctx clock accepts (some_resolved c cs probe score tier) _ r,
      length-retry_served ctx (some_resolved c cs probe score tier) _ r,
    )

    ended-Closed :
        (cut : Option ℕ) (r : Outcome (RequestOutcome Value Carrier) RequestError)
        (attempts : List AttemptRecord) (actions : List Action)
        → Closed ctx (
            timed_served j f w x s ctx clock
              (some_resolved c cs probe score tier)
              (timeout_at cut (ended r attempts actions)))
    unfolding timeout_at
    ended-Closed none r attempts actions = timed-Closed (finished r attempts)
    ended-Closed (some k) r attempts actions = timed-Closed (elapsed (take k attempts))

    retries-Closed :
        (cut : Option ℕ) (upstream : ℕ → SelectedProvider → Upstream Value)
        → Closed ctx (
            handle_non_streaming_path j f w x s ctx clock cut
              (some_resolved c cs probe score tier)
              upstream)
    unfolding handle_non_streaming_path
    retries-Closed cut upstream =
        rw
          (retry_with_fallback-walk (λ e. e.status_code) (send_candidate j f w x (c ∷ cs) upstream)
            _ _ [])
          (ended-Closed cut _ _ _)

  module _ {F : Type 0} (trim_end : String → String) (cut : Option ℕ)
      (upstream : ℕ → Posted Value F → Upstream Value) (c : SelectedProvider)
      (cs : List SelectedProvider) (probe : Option String) (score : Option Carrier)
      (tier : Tier) where
    -- What a gate and a path make of a request.
    abbrev IsServed : Gate Value F Carrier → Option (Served Value Carrier) → Type 0
    IsServed g o =
        (served : Served Value Carrier) × (o ≡ some served)
        × Charged s g served.charges
        × (length served.logs ≡ rows s)

    path-Closed :
        (streaming : Bool) (ctx : RequestContext) (request : ChatCompletionRequest Value F)
        → Closed ctx (
            path j t f w x trim_end s clock accepts cut upstream streaming
              (some_resolved c cs probe score tier)
              ctx
              request)
    unfolding path
    path-Closed true ctx request = streaming-Closed c cs probe score tier ctx _
    path-Closed false ctx request = retries-Closed c cs probe score tier ctx cut _

    serve-IsServed :
        (g : Gate Value F Carrier)
        → IsClean s g
        → IsServed g (
            serve j t f w x trim_end s clock accepts cut upstream
              (some_resolved c cs probe score tier)
              g)
    unfolding serve
    serve-IsServed (passes ctx request) h = path-Closed ctx.is_streaming ctx request
    serve-IsServed (refuses served) h = (served, refl, h.1, h.0)
    serve-IsServed gate_panics h = absurd h

    -- Once the candidates are resolved, the handler answers: it does not panic. It writes one row
    -- of the log, if there is a writer, and it charges the vault exactly once for the reservation
    -- that the gate made, on every path and after every answer of the providers; without a
    -- reservation, and after a refusal, it charges nothing.
    pub after_resolution-Charged :
        (json_len : List Value → Option ℕ) (router : Router)
        (post : List ℕ → ℕ → VaultResult Reservation) (authorization : Option (List ℕ))
        (ctx : RequestContext) (request : ChatCompletionRequest Value F) (r : Registry) (n : ℕ)
        → let rc = some_resolved c cs probe score tier in
          let gate =
            gate_of j t f w x trim_end s clock accepts cut upstream json_len router post
              authorization ctx request rc in
          (served : Served Value Carrier) × (after_resolution j t f w x trim_end s clock accepts cut
              upstream json_len router post authorization ctx request
              (resolved r n rc)
            ≡ answers r served)
          × Charged s gate served.charges
          × (length served.logs ≡ rows s)
    unfolding after_resolution
    after_resolution-Charged json_len router post authorization ctx request r n =
        let clean =
          vault_gate-IsClean x.show json_len router post s ctx clock c cs probe score tier s.vault
            authorization request in
        let (served, e, charged, logged) = serve-IsServed _ clean in
        (served, ap (ending r) e, charged, logged)
