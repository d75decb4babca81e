-- ===== src/Handlers/ProbeEnd.antt =====
-- src/proxy/handlers.rs: a noted probe comes to its end on every path.
use arbstr.Prelude.{
  ℕ, suc, ◌≡◌, ◌≢◌, refl, sym, subst, ◌∙◌, ap, Bool, true, false, Option, none, some, String, List,
  [], ◌∷◌, ◌++◌, lookup, Bool-cases, inl, inr, str_eq,
}
use mathlib.Core.List.{append_assoc}
use arbstr.Circuit.Breaker.{Inner, half_open}
use arbstr.Circuit.Breaker
use arbstr.Circuit.Registry.{Registry}
use arbstr.Circuit.RegistryLaws.{Call, after, after_all, after_lem}
use arbstr.Circuit.Independence.{after_all-run}
use arbstr.Router.Types.{SelectedProvider, Tier}
use arbstr.Router.Cost.{F64}
use arbstr.Request.Types.{ChatCompletionRequest}
use arbstr.Retry.Attempts.{AttemptRecord, Action, Outcome, ok, err, ended}
use arbstr.Retry.Laws.{retry_with_fallback-walk}
use arbstr.Sse.Json.{Json, Utf8}
use arbstr.Handlers.Provider.{RequestOutcome, RequestError, Upstream, Writer, Posted}
use arbstr.Handlers.Serving.{
  Report, Charge, probe_succeeds, probe_fails, call, RequestContext, AppState, Clock, Texts, Served,
  succeeds,
}
use arbstr.Handlers.StreamingPath.{stream_reports, guard_ok, handle_streaming_path, stream_served}
use arbstr.Handlers.RetryPath.{
  take, Timed, finished, elapsed, result_reports, attempt_reports, recorded, timed_served,
  retry_served, handle_non_streaming_path, timeout_at, send_candidate,
}
use arbstr.Handlers.Gate.Clean.{some_resolved}
use arbstr.Handlers.Chat.{path}

-- The report that ends the probe of a provider.
pub data EndsProbe (name : String) : Report → Type 0 where
  succeeded : EndsProbe name (probe_succeeds name)
  failed : {e : Breaker.LastError} → EndsProbe name (probe_fails name e)

-- Reports of which the last ends the probe.
abbrev pub EndsWithProbe : String → List Report → Type 0
EndsWithProbe name reports =
    (before : List Report) × (r : Report) × (reports ≡ before ++ r ∷ []) × EndsProbe name r

-- The calls of the reports, each at its time.
abbrev pub timed : (ℕ → ℕ) → ℕ → List Report → List Call
timed at n [] = []
timed at n (r ∷ rs) = call (at n) r ∷ timed at (suc n) rs

timed_last :
    (at : ℕ → ℕ) (n : ℕ) (before : List Report) (r : Report)
    → (earlier : List Call) × (m : ℕ) × (timed at n (before ++ r ∷ []) ≡ earlier ++ call m r ∷ [])
timed_last at n [] r = ([], at n, refl)
timed_last at n (b ∷ bs) r =
    let (earlier, m, e) = timed_last at (suc n) bs r in
    (call (at n) b ∷ earlier, m, ap (λ cs. call (at n) b ∷ cs) e)

after_all-last :
    (cs : List Call) (c : Call) (r : Registry)
    → after_all (cs ++ c ∷ []) r ≡ after c (after_all cs r)
unfolding after_all
after_all-last [] c r = refl
after_all-last (d ∷ cs) c r = after_all-last cs c (after d r)

abbrev pub IsResolved : String → Registry → Type 0
IsResolved name r =
    (b : Inner) × (lookup name r ≡ some b) × (b.probe_in_flight ≡ false) × (b.state ≢ half_open)

probe-IsResolved :
    (name : String) (now : ℕ) (r : Report) (g : Registry) (b : Inner)
    → EndsProbe name r
    → lookup name g ≡ some b
    → IsResolved name (after (call now r) g)
unfolding Breaker.step
probe-IsResolved name now r g b succeeded found =
    (_, (after_lem (call now (probe_succeeds name)) g).0 b found, refl, λ e. cc)
probe-IsResolved name now r g b (failed {e = e}) found =
    (_, (after_lem (call now (probe_fails name e)) g).0 b found, refl, λ e. cc)

pub reports-IsResolved :
    (name : String) (at : ℕ → ℕ) (reports : List Report) (g : Registry) (b : Inner)
    → EndsWithProbe name reports
    → lookup name g ≡ some b
    → IsResolved name (after_all (timed at 0 reports) g)
reports-IsResolved name at reports g b (before, r, split, ends) found =
    let (earlier, m, e) = timed_last at 0 before r in
    rw (split, e, after_all-last earlier (call m r) g)
      (probe-IsResolved name m r (after_all earlier g) _ ends
        (after_all-run earlier g name b found))

append-EndsWithProbe :
    (name : String) (xs ys : List Report) → EndsWithProbe name ys → EndsWithProbe name (xs ++ ys)
append-EndsWithProbe name xs ys (before, r, e, ends) =
    (xs ++ before, r, ap (λ l. xs ++ l) e ∙ sym (append_assoc xs before (r ∷ [])), ends)

guard_ok-EndsWithProbe :
    (provider name : String) (rs : List Report)
    → EndsWithProbe name (rs ++ guard_ok provider (some name))
unfolding guard_ok
guard_ok-EndsWithProbe provider name rs = elim (Bool-cases (str_eq provider name)) [
  | inl e ↦ rw e (rs, _, refl, succeeded)
  | inr e ↦ rw e (rs, _, refl, failed)
]

module _ (j : Json) (t : Utf8) (f : F64) (w : Writer j.Value f.Carrier) (x : Texts f.Carrier) where
  open j use {Value}
  open f use {Carrier}

  stream_reports-EndsWithProbe :
      (name : String) (r : Outcome (RequestOutcome Value Carrier) RequestError)
      → EndsWithProbe name (stream_reports j t f w x (some name) r)
  unfolding stream_reports
  stream_reports-EndsWithProbe name (ok o) =
      guard_ok-EndsWithProbe o.provider_name name (succeeds o.provider_name ∷ [])
  stream_reports-EndsWithProbe name (err e) = (_, _, refl, failed)

  result_reports-EndsWithProbe :
      (name : String) (r : Timed (RequestOutcome Value Carrier) RequestError)
      → EndsWithProbe name (result_reports j f w x (some name) r)
  unfolding result_reports
  result_reports-EndsWithProbe name (finished (ok o) attempts) =
      elim (Bool-cases (str_eq o.provider_name name)) [
        | inl e ↦ rw e ([], _, refl, succeeded)
        | inr e ↦ rw e (succeeds o.provider_name ∷ [], _, refl, failed)
      ]
  result_reports-EndsWithProbe name (finished (err e) attempts) = ([], _, refl, failed)
  result_reports-EndsWithProbe name (elapsed attempts) = ([], _, refl, failed)

  module _ {F : Type 0} (trim_end : String → String) (s : AppState) (clock : Clock)
      (accepts : ℕ → Bool) (cut : Option ℕ) (upstream : ℕ → Posted Value F → Upstream Value)
      (c : SelectedProvider) (cs : List SelectedProvider) (name : String) (score : Option Carrier)
      (tier : Tier) (ctx : RequestContext) (request : ChatCompletionRequest Value F) where
    -- An outcome with a response, of which the last report ends the probe.
    abbrev EndsIn : Option (Served Value Carrier) → Type 0
    EndsIn o =
        (served : Served Value Carrier) × (o ≡ some served) × EndsWithProbe name served.reports

    stream_served-EndsWithProbe :
        (task : List Charge) (r : Outcome (RequestOutcome Value Carrier) RequestError)
        → EndsWithProbe name
            (stream_served j t f w x s ctx clock
              (some_resolved c cs (some name) score tier)
              task
              r).reports
    unfolding stream_served
    stream_served-EndsWithProbe task (ok o) = stream_reports-EndsWithProbe name (ok o)
    stream_served-EndsWithProbe task (err e) = stream_reports-EndsWithProbe name (err e)

    retry_served-reports :
        (reports : List Report) (r : Timed (RequestOutcome Value Carrier) RequestError)
        → (retry_served j f w x s ctx clock
            (some_resolved c cs (some name) score tier)
            reports
            r).reports
          ≡ reports
    unfolding retry_served
    retry_served-reports reports (finished (ok o) attempts) = refl
    retry_served-reports reports (finished (err e) attempts) = refl
    retry_served-reports reports (elapsed attempts) = refl

    timed_served-EndsIn :
        (r : Timed (RequestOutcome Value Carrier) RequestError)
        → EndsIn
            (timed_served j f w x s ctx clock (some_resolved c cs (some name) score tier) (some r))
    unfolding timed_served
    timed_served-EndsIn r = (
      _,
      refl,
      subst (EndsWithProbe name) (sym (retry_served-reports _ r)) (
          append-EndsWithProbe name (attempt_reports j f w x (recorded r)) _
            (result_reports-EndsWithProbe name r)),
    )

    timeout_at-EndsIn :
        (r : Outcome (RequestOutcome Value Carrier) RequestError) (attempts : List AttemptRecord)
        (actions : List Action) (k : Option ℕ)
        → EndsIn (
            timed_served j f w x s ctx clock
              (some_resolved c cs (some name) score tier)
              (timeout_at k (ended r attempts actions)))
    unfolding timeout_at
    timeout_at-EndsIn r attempts actions none = timed_served-EndsIn (finished r attempts)
    timeout_at-EndsIn r attempts actions (some k) = timed_served-EndsIn (elapsed (take k attempts))

    path-EndsIn :
        (streaming : Bool)
        → EndsIn (
            path j t f w x trim_end s clock accepts cut upstream streaming
              (some_resolved c cs (some name) score tier)
              ctx
              request)
    unfolding path handle_streaming_path handle_non_streaming_path
    path-EndsIn true = (_, refl, stream_served-EndsWithProbe _ _)
    path-EndsIn false =
        rw
          (retry_with_fallback-walk (λ e. e.status_code) (send_candidate j f w x (c ∷ cs) _) _ _ [])
          (timeout_at-EndsIn _ _ _ cut)

    -- Where the resolution noted a probe, either path answers, and its calls on the circuit
    -- breakers, at any times and with no other task in between, leave the breaker of that provider
    -- with no probe in flight and not half-open, whatever the providers answer and also if the
    -- deadline comes first.
    pub path-IsResolved :
        (streaming : Bool) (at : ℕ → ℕ) (g : Registry) (b : Inner)
        → lookup name g ≡ some b
        → (served : Served Value Carrier) × (path j t f w x trim_end s clock accepts cut upstream
              streaming
              (some_resolved c cs (some name) score tier)
              ctx
              request
            ≡ some served)
          × IsResolved name (after_all (timed at 0 served.reports) g)
    path-IsResolved streaming at g b found =
        let (served, e, ends) = path-EndsIn streaming in
        (served, e, reports-IsResolved name at served.reports g b ends found)
