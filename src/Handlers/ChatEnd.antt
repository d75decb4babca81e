-- ===== src/Handlers/ChatEnd.antt =====
-- src/proxy/handlers.rs: how `chat_completions` ends, from the request to the response.
use arbstr.Prelude.{
  ℕ, ◌≡◌, ◌≢◌, ◌≤◌, refl, Bool, Option, none, some, String, List, [], ◌∷◌, length, arith,
}
use arbstr.Circuit.Registry.{Registry}
use arbstr.Router.Types.{SelectedProvider, Tier, Result}
use arbstr.Router.Selector.{Router, select_candidates}
use arbstr.Router.Cost.{F64}
use arbstr.Request.Types.{ChatCompletionRequest, user_prompt}
use arbstr.Sse.Json.{Json, Utf8}
use arbstr.Vault.Client.{VaultResult, Reservation}
use arbstr.Handlers.Resolve.{
  World, ResolvedCandidates, Resolution, resolved, responded, blocked, out_of_rounds,
  resolve_candidates,
}
use arbstr.Handlers.ResolveLaws.{IsSound, resolve_candidates-IsSound}
use arbstr.Handlers.Provider.{Upstream, Writer, Posted}
use arbstr.Handlers.Serving.{Charge, VaultSettings, RequestContext, AppState, Clock, Texts}
use arbstr.Handlers.Rows.{rows, length-log_error_to_db}
use arbstr.Handlers.ChargeLaws.{Settled}
use arbstr.Handlers.ChatLaws.{Charged, after_resolution-Charged}
use arbstr.Handlers.Gate.{Gate, passes, refuses, gate_panics, vault_gate}
use arbstr.Handlers.Chat.{
  Headers, Chat, answers, waits, panics, starting_tier, complexity_override, unresolved, gate_of,
  after_resolution, context, chat_completions,
}

-- What an end of the handler promises, for the end of its resolution.
abbrev pub IsAnswered : {V C : Type 0} → AppState → Resolution C → Chat V C → Type 0
IsAnswered s x (answers r served) =
    (length served.logs ≡ rows s)
    × (length served.charges ≤ 1)
    × (s.vault ≡ none → served.charges ≡ [])
IsAnswered s x waits = x ≡ blocked
IsAnswered s x panics = ⊥

Settled-le :
    (v : Option VaultSettings) (rid : Option String) (charges : List Charge)
    → Settled v rid charges
    → length charges ≤ 1
Settled-le none rid charges h = rw h (omega arith)
Settled-le (some v) none charges h = rw h (omega arith)
Settled-le (some v) (some rid) charges (c, h, _) = rw h (omega arith)

Charged-le :
    {V F C : Type 0} (s : AppState) (g : Gate V F C) (charges : List Charge)
    → Charged s g charges
    → length charges ≤ 1
Charged-le s (passes ctx request) charges h = Settled-le s.vault ctx.reservation_id charges h
Charged-le s (refuses served) charges h = rw h (omega arith)
Charged-le s gate_panics charges h = absurd h

module _ (j : Json) (t : Utf8) (f : F64) (w : Writer j.Value f.Carrier) (x : Texts f.Carrier)
    (s : AppState) (clock : Clock) (accepts : ℕ → Bool) {F : Type 0} (trim_end : String → String)
    (cut : Option ℕ) (upstream : ℕ → Posted j.Value F → Upstream j.Value)
    (json_len : List j.Value → Option ℕ) (router : Router)
    (post : List ℕ → ℕ → VaultResult Reservation) where
  open j use {Value}
  open f use {Carrier}

  module _ (authorization : Option (List ℕ)) (ctx : RequestContext)
      (request : ChatCompletionRequest Value F) where
    abbrev gate_for : ResolvedCandidates Carrier → Gate Value F Carrier
    gate_for rc =
        gate_of j t f w x trim_end s clock accepts cut upstream json_len router post authorization
          ctx request rc

    -- Without a vault the gate passes the request without a reservation.
    unbilled :
        (rc : ResolvedCandidates Carrier) (charges : List Charge)
        → Charged s (gate_for rc) charges
        → s.vault ≡ none
        → charges ≡ []
    unfolding vault_gate
    unbilled rc charges h free = rw free at h

    abbrev after : Resolution Carrier → Chat Value Carrier
    after r =
        after_resolution j t f w x trim_end s clock accepts cut upstream json_len router post
          authorization ctx request r

    resolved-IsAnswered :
        (r : Registry) (n : ℕ) (cs : List SelectedProvider) (probe : Option String)
        (score : Option Carrier) (tier : Tier)
        → cs ≢ []
        → let rc : ResolvedCandidates Carrier = record {
          candidates = cs;
          probe_provider = probe;
          complexity_score = score;
          tier = tier;
        } in
          IsAnswered s (resolved r n rc) (after (resolved r n rc))
    resolved-IsAnswered r n [] probe score tier h = absurd (h refl)
    resolved-IsAnswered r n (c ∷ cs) probe score tier h =
        let (served, e, charged, logged) =
          after_resolution-Charged j t f w x s clock accepts trim_end cut upstream c cs probe score
            tier json_len router post authorization ctx request r n in
        rw e (logged, Charged-le s _ served.charges charged, unbilled _ served.charges charged)

    after-IsAnswered :
        (select_at : Tier → Result (List SelectedProvider)) (tier : Tier) (y : Resolution Carrier)
        → IsSound select_at tier y
        → IsAnswered s y (after y)
    unfolding after_resolution unresolved
    after-IsAnswered select_at tier (resolved r n rc) h =
        resolved-IsAnswered r n rc.candidates rc.probe_provider rc.complexity_score rc.tier h.0
    after-IsAnswered select_at tier (responded r n e l) h =
        (length-log_error_to_db s ctx clock _ _ _ _ _, omega arith, λ free. refl)
    after-IsAnswered select_at tier blocked h = refl
    after-IsAnswered select_at tier out_of_rounds h = absurd h

  -- For every request, configuration and state of the breakers, whatever other tasks, the providers
  -- and the vault do: the handler does not panic. It waits for ever only where the resolution waits
  -- for a probe whose end never comes; else it answers, with one row of the log if there is a writer,
  -- with at most one charge, and with none where there is no vault.
  pub chat_completions-IsAnswered :
      (lower : String → String) (lt : Carrier → Carrier → Bool) (low high score : Carrier)
      (world : World) (r : Registry) (correlation_id : String) (headers : Headers)
      (request : ChatCompletionRequest Value F)
      → let (complexity_score, max_tier) =
          starting_tier lt low high score (complexity_override lower headers.complexity) in
        IsAnswered s
          (resolve_candidates lower router world request.model headers.policy
            (user_prompt j request)
            complexity_score
            max_tier
            r)
          (chat_completions j t f w x trim_end s clock accepts cut upstream lower lt low high score
            json_len router post world r correlation_id headers request)
  unfolding chat_completions
  chat_completions-IsAnswered lower lt low high score world r correlation_id headers request =
      let (complexity_score, max_tier) =
        starting_tier lt low high score (complexity_override lower headers.complexity) in
      after-IsAnswered headers.authorization
        (context j t f w x trim_end s clock accepts cut upstream correlation_id headers request)
        request
        (λ tier.
          select_candidates lower router request.model headers.policy (user_prompt j request)
            (some tier))
        max_tier
        (resolve_candidates lower router world request.model headers.policy (user_prompt j request)
          complexity_score max_tier r)
        (resolve_candidates-IsSound lower router world request.model headers.policy
          (user_prompt j request) complexity_score max_tier r)
