-- ===== src/Handlers/Gate/Clean.antt =====
-- src/proxy/handlers.rs: what the vault gate leaves behind when it refuses.
use arbstr.Prelude.{
  ℕ, ◌≡◌, refl, Option, none, some, String, List, [], ◌∷◌, length, Bool-cases, Option-cases, inl,
  inr,
}
use arbstr.Router.Types.{SelectedProvider, Tier}
use arbstr.Router.Selector.{Router, frontier_rates}
use arbstr.Request.Types.{ChatCompletionRequest}
use arbstr.Vault.Client
use arbstr.Vault.Client.{VaultResult, Reservation}
use arbstr.Handlers.Resolve.{ResolvedCandidates}
use arbstr.Handlers.Rows.{rows, length-log_error_to_db}
use arbstr.Handlers.Serving.{VaultSettings, RequestContext, AppState, Clock}
use arbstr.Handlers.Gate.{
  Gate, passes, refuses, gate_panics, agent_token, vault_gate, reserve_rates, refusal,
  after_reserve, reserve_at, with_token, first_rates,
}

-- What a gate may do: pass, or refuse with one row and nothing else; it does not panic.
abbrev pub IsClean : {V F C : Type 0} → AppState → Gate V F C → Type 0
IsClean s (passes ctx request) = Unit
IsClean s (refuses served) =
    (length served.logs ≡ rows s) × (served.charges ≡ []) × (served.reports ≡ [])
IsClean s gate_panics = ⊥

-- Candidates that were resolved: there is a first.
abbrev pub some_resolved :
    {C : Type 0}
    → SelectedProvider
    → List SelectedProvider
    → Option String
    → Option C
    → Tier
    → ResolvedCandidates C
some_resolved c cs probe score tier = record {
  candidates = c ∷ cs;
  probe_provider = probe;
  complexity_score = score;
  tier = tier;
}

rates-total :
    (c : SelectedProvider) (cs : List SelectedProvider) (o : Option (ℕ × ℕ × ℕ))
    → (t : ℕ × ℕ × ℕ) × (reserve_rates (c ∷ cs) o ≡ some t)
unfolding reserve_rates first_rates
rates-total c cs none = ((c.input_rate, c.output_rate, c.base_fee), refl)
rates-total c cs (some t) = (t, refl)

module _ {V F C : Type 0} (show : ℕ → String) (json_len : List V → Option ℕ) (router : Router)
    (post : List ℕ → ℕ → VaultResult Reservation) (s : AppState) (ctx : RequestContext)
    (clock : Clock) (c : SelectedProvider) (cs : List SelectedProvider) (probe : Option String)
    (score : Option C) (tier : Tier) where
  after_reserve-IsClean :
      (request : ChatCompletionRequest V F) (a : VaultResult Reservation)
      → IsClean s (
          after_reserve show json_len router post s ctx clock
            (some_resolved c cs probe score tier)
            request
            a)
  unfolding after_reserve refusal
  after_reserve-IsClean request (Client.ok r) = tt
  after_reserve-IsClean request (Client.err e) =
      (length-log_error_to_db s ctx clock _ _ _ _ _, refl, refl)

  pub vault_gate-IsClean :
      (v : Option VaultSettings) (authorization : Option (List ℕ))
      (request : ChatCompletionRequest V F)
      → IsClean s (
          vault_gate show json_len router post s ctx clock
            (some_resolved c cs probe score tier)
            v
            authorization
            request)
  unfolding vault_gate with_token refusal reserve_at
  vault_gate-IsClean none authorization request = tt
  vault_gate-IsClean (some v) authorization request = elim (Bool-cases v.backpressure) [
    | inl e ↦ rw e (length-log_error_to_db s ctx clock _ _ _ _ _, refl, refl)
    | inr e ↦ rw e (elim (Option-cases (agent_token authorization)) [
      | inl n ↦ rw n (length-log_error_to_db s ctx clock _ _ _ _ _, refl, refl)
      | inr (token, n) ↦
          rw n
            (rw (rates-total c cs (frontier_rates router ctx.model)).1 (after_reserve-IsClean _ _))
    ])
  ]
