-- ===== src/Handlers/ChargeLaws.antt =====
-- src/proxy/handlers.rs: what a request is charged, over every path.
use arbstr.Prelude.{
  ℕ, ◌≡◌, refl, inl, inr, Bool, true, Option, none, some, String, List, [], ◌∷◌, ◌&&◌, leb,
  Bool-cases,
}
use arbstr.Router.Types.{SelectedProvider}
use arbstr.Router.Cost.{F64}
use arbstr.Retry.Attempts.{Outcome, ok, err}
use arbstr.Sse.Json.{Json, Utf8}
use arbstr.Handlers.Resolve.{ResolvedCandidates}
use arbstr.Handlers.Streaming.{Item}
use arbstr.Handlers.StreamingLaws.{stream_task-reads_nothing}
use arbstr.Handlers.Provider.{
  Upstream, answered, unreachable, Writer, send_to_provider, RequestOutcome, RequestError,
}
use arbstr.Handlers.Serving.{
  Report, Charge, settle, release, VaultSettings, RequestContext, AppState, Clock, Texts,
  if_reserved,
}
use arbstr.Handlers.StreamingPath.{spawned, stream_served}
use arbstr.Handlers.RetryPath.{Timed, finished, elapsed, retry_served}

abbrev pub reservation_of : Charge → String
reservation_of (settle rid msats meta) = rid
reservation_of (release rid reason) = rid

-- Exactly one charge for a reservation that the vault made, and none without one.
abbrev pub Settled : Option VaultSettings → Option String → List Charge → Type 0
Settled none rid charges = charges ≡ []
Settled (some v) none charges = charges ≡ []
Settled (some v) (some rid) charges = (c : Charge) × (charges ≡ c ∷ []) × (reservation_of c ≡ rid)

if_reserved-Settled :
    (v : Option VaultSettings) (rid : Option String) (k : String → Charge)
    → ((r : String) → reservation_of (k r) ≡ r)
    → Settled v rid (if_reserved v rid k)
if_reserved-Settled none rid k h = refl
if_reserved-Settled (some v) none k h = refl
if_reserved-Settled (some v) (some rid) k h = (k rid, refl, h rid)

module _ (j : Json) (t : Utf8) (f : F64) (w : Writer j.Value f.Carrier) (x : Texts f.Carrier)
    (s : AppState) (ctx : RequestContext) (clock : Clock) (accepts : ℕ → Bool) where
  open j use {Value}
  open f use {Carrier}

  -- The spawned task charges its reservation once.
  spawned-Settled :
      (v : Option VaultSettings) (rid : Option String) (ms : ℕ) (p : SelectedProvider) (status : ℕ)
      (body : String) (parsed : Outcome Value String) (items : List Item)
      → Settled v rid (spawned j t f w x v rid ms accepts p (answered status body parsed items))
  unfolding spawned
  spawned-Settled none rid ms p status body parsed items =
      rw (stream_task-reads_nothing j t f accepts items p none).1 refl
  spawned-Settled (some v) none ms p status body parsed items =
      rw (stream_task-reads_nothing j t f accepts items p none).1 refl
  spawned-Settled (some v) (some rid) ms p status body parsed items =
      rw (stream_task-reads_nothing j t f accepts items p (some rid)).1 (_, refl, refl)

  pub stream_served-Settled :
      (rc : ResolvedCandidates Carrier) (p : SelectedProvider) (u : Upstream Value)
      → Settled s.vault ctx.reservation_id
          (stream_served j t f w x s ctx clock rc
            (spawned j t f w x s.vault ctx.reservation_id clock.stream_duration_ms accepts p u)
            (send_to_provider j f w x.status_text p true u)).charges
  unfolding stream_served send_to_provider
  stream_served-Settled rc p (unreachable e) =
      if_reserved-Settled s.vault ctx.reservation_id _ (λ r. refl)
  stream_served-Settled rc p (answered status body parsed items) =
      elim (Bool-cases (leb 200 status && leb status 299)) [
        | inl e ↦ rw e (
            spawned-Settled s.vault ctx.reservation_id clock.stream_duration_ms p status body parsed
              items)
        | inr e ↦ rw e (if_reserved-Settled s.vault ctx.reservation_id _ (λ r. refl))
      ]

  pub retry_served-Settled :
      (rc : ResolvedCandidates Carrier) (reports : List Report)
      (r : Timed (RequestOutcome Value Carrier) RequestError)
      → Settled s.vault ctx.reservation_id (retry_served j f w x s ctx clock rc reports r).charges
  unfolding retry_served
  retry_served-Settled rc reports (elapsed attempts) =
      if_reserved-Settled s.vault ctx.reservation_id _ (λ r. refl)
  retry_served-Settled rc reports (finished (ok o) attempts) =
      if_reserved-Settled s.vault ctx.reservation_id _ (λ r. refl)
  retry_served-Settled rc reports (finished (err e) attempts) =
      if_reserved-Settled s.vault ctx.reservation_id _ (λ r. refl)
