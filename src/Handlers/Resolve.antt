-- ===== src/Handlers/Resolve.antt =====
-- src/proxy/handlers.rs: `resolve_candidates`. What happens outside the task at each wait is an
-- argument: for the n-th permit that the request asks for, the calls that other tasks have made on
-- the registry meanwhile, the time, and what wakes the task if it waits.
use arbstr.Prelude.{ℕ, zero, suc, Option, none, some, String, List, [], ◌∷◌, ◌++◌}
use arbstr.Circuit.Registry.{
  Registry, Acquired, granted, refused, still_waiting, normal, probe, Wake, acquire_permit,
}
use arbstr.Circuit.RegistryLaws.{Call, after_all}
use arbstr.Router.Types.{
  Tier, escalate, SelectedProvider, Error, no_tier_match, circuit_open, no_providers,
  no_policy_match, bad_request, Result, ok, err,
}
use arbstr.Router.Selector.{Router, select_candidates}

pub record Moment : Type 0 where
  pub others : List Call
  pub now : ℕ
  pub wakes : List Wake

abbrev pub World : Type 0
World = ℕ → Moment

-- `routing_error_status`.
unfoldable pub routing_error_status : Error → ℕ
routing_error_status (no_providers _) = 400
routing_error_status no_policy_match = 400
routing_error_status (no_tier_match _ _) = 400
routing_error_status (bad_request _) = 400
routing_error_status _ = 500

-- The candidates that got a permit, and the provider whose probe permit was noted last.
pub record Filtered : Type 0 where
  pub registry : Registry
  pub asked : ℕ
  pub filtered : List SelectedProvider
  pub probe_provider : Option String

-- The arms of the `match` on the permit; a call that is never woken has no arm.
abbrev pub take_permit : SelectedProvider → Acquired → Registry → Filtered → Option Filtered
take_permit c (granted normal) r f =
    some (record f { registry = r; asked = suc f.asked; filtered = f.filtered ++ c ∷ [] })
take_permit c (granted probe) r f = some (record {
  registry = r;
  asked = suc f.asked;
  filtered = c ∷ f.filtered;
  probe_provider = some c.name;
})
take_permit c (refused _) r f = some (record f { registry = r; asked = suc f.asked })
take_permit c still_waiting r f = none

unfoldable pub ask : World → SelectedProvider → Filtered → Option Filtered
ask w c f =
    let m = w f.asked in
    let (r, a) = acquire_permit m.now m.wakes c.name (after_all m.others f.registry) in
    take_permit c a r f

abbrev pub and_then : Option Filtered → (Filtered → Option Filtered) → Option Filtered
and_then none k = none
and_then (some f) k = k f

-- The loop over the candidates of one tier.
unfoldable pub filter_candidates : World → List SelectedProvider → Filtered → Option Filtered
filter_candidates w [] f = some f
filter_candidates w (c ∷ cs) f = and_then (ask w c f) (filter_candidates w cs)

-- The row that `log_error_to_db` writes, as far as the caller chooses it.
pub record LoggedError (Score : Type 0) : Type 0 where
  pub status_code : ℕ
  pub complexity_score : Option Score
  pub tier : Option Tier

pub record ResolvedCandidates (Score : Type 0) : Type 0 where
  pub candidates : List SelectedProvider
  pub probe_provider : Option String
  pub complexity_score : Option Score
  pub tier : Tier

-- How the function ends: with candidates, or with an error response; `blocked` is a task that is
-- never woken, and `out_of_rounds` a loop with too few rounds.
pub data Resolution (Score : Type 0) : Type 0 where
  resolved : Registry → ℕ → ResolvedCandidates Score → Resolution Score
  responded : Registry → ℕ → Error → LoggedError Score → Resolution Score
  blocked : Resolution Score
  out_of_rounds : Resolution Score

module _ {Score : Type 0} (score : Option Score) (model : String) (w : World) where
  -- Escalate, or end with the error of the last tier.
  unfoldable pub or_escalate :
      (Tier → Resolution Score) → Registry → ℕ → Tier → Option Tier → ℕ → Error → Resolution Score
  or_escalate next r n tier (some t) status e = next t
  or_escalate next r n tier none status e =
      responded r n e (record { status_code = status; complexity_score = score; tier = some tier })

  -- After the circuit breakers.
  unfoldable pub after_filter :
      (ℕ → Registry → Tier → Resolution Score) → Tier → Option Filtered → Resolution Score
  unfolding or_escalate
  after_filter next tier none = blocked
  after_filter next tier (some f) = elim f.filtered [
    | [] ↦
        or_escalate (next f.asked f.registry) f.registry f.asked tier (escalate tier) 503
          (circuit_open model)
    | c ∷ cs ↦ resolved f.registry f.asked (record {
      candidates = c ∷ cs;
      probe_provider = f.probe_provider;
      complexity_score = score;
      tier = tier;
    })
  ]

  -- One round: select at the tier, then ask for permits.
  unfoldable pub after_select :
      (ℕ → Registry → Tier → Resolution Score)
      → ℕ
      → Registry
      → Tier
      → Result (List SelectedProvider)
      → Resolution Score
  unfolding after_filter or_escalate
  after_select next n r tier (ok candidates) = after_filter next tier (
      filter_candidates w candidates
        (record { registry = r; asked = n; filtered = []; probe_provider = none }))
  after_select next n r tier (err (no_tier_match _ _)) =
      or_escalate (next n r) r n tier (escalate tier) 400 (no_tier_match tier model)
  after_select next n r tier (err e) =
      responded r n e
        (record { status_code = routing_error_status e; complexity_score = none; tier = none })

  -- The `loop`, for a number of rounds.
  unfoldable pub resolve_rounds :
      (Tier → Result (List SelectedProvider)) → ℕ → ℕ → Registry → Tier → Resolution Score
  unfolding after_select
  resolve_rounds select_at zero n r tier = out_of_rounds
  resolve_rounds select_at (suc rounds) n r tier =
      after_select (resolve_rounds select_at rounds) n r tier (select_at tier)

-- `resolve_candidates`, from the tier that the header or the score gives; there are three tiers.
unfoldable pub resolve_candidates :
    {Score : Type 0}
    → (String → String)
    → Router
    → World
    → String
    → Option String
    → Option String
    → Option Score
    → Tier
    → Registry
    → Resolution Score
unfolding resolve_rounds
resolve_candidates lower router w model policy_name prompt score max_tier r =
    resolve_rounds score model w
      (λ t. select_candidates lower router model policy_name prompt (some t)) 3 0 r max_tier
