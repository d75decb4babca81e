-- ===== src/Api/Estimate.antt =====
-- src/proxy/handlers.rs: `cost_estimate` and `list_providers`.
use arbstr.Prelude.{ℕ, ◌≡◌, refl, ap, true, Option, none, some, String, List, [], ◌∷◌, filter}
use arbstr.Router.Types.{
  Tier, local, standard, frontier, tier_le, ProviderConfig, PolicyRule, SelectedProvider, Result,
  ok, err,
}
use arbstr.Router.Selector.{
  Router, serves, find_policy, or_no_provider, or_no_tier, with_tier, within_tier,
  select_candidates, select, first,
}
use arbstr.Router.Cost.{F64, actual_cost_sats}
use arbstr.Request.Types.{ChatCompletionRequest, user_prompt, estimate_tokens}
use arbstr.Sse.Json.{Json}

-- The answer, with the section `rates` written flat.
pub record CostEstimate (C : Type 0) : Type 0 where
  pub model : String
  pub provider : String
  pub estimated_input_tokens : ℕ
  pub estimated_output_tokens : ℕ
  pub estimated_cost_sats : C
  pub input_rate_sats_per_1k : ℕ
  pub output_rate_sats_per_1k : ℕ
  pub base_fee_sats : ℕ

module _ (j : Json) (f : F64) {F : Type 0} (json_len : List j.Value → Option ℕ)
    (request : ChatCompletionRequest j.Value F) where
  open f use {Carrier}

  -- The estimate at a provider.
  abbrev pub estimate_at : SelectedProvider → CostEstimate Carrier
  estimate_at p =
      let (input, output) = estimate_tokens json_len request 256 in
      record {
        model = request.model;
        provider = p.name;
        estimated_input_tokens = input;
        estimated_output_tokens = output;
        estimated_cost_sats = actual_cost_sats f input output p.input_rate p.output_rate p.base_fee;
        input_rate_sats_per_1k = p.input_rate;
        output_rate_sats_per_1k = p.output_rate;
        base_fee_sats = p.base_fee;
      }

  -- The handler after the selection; `ok none` is its panic.
  abbrev pub priced : Result (Option SelectedProvider) → Result (Option (CostEstimate Carrier))
  priced (ok (some p)) = ok (some (estimate_at p))
  priced (ok none) = ok none
  priced (err e) = err e

  unfoldable pub cost_estimate :
      (String → String) → Router → Option String → Result (Option (CostEstimate Carrier))
  cost_estimate lower router policy_name =
      priced (select lower router request.model policy_name (user_prompt j request) none)

within_frontier : (t : Tier) → tier_le t frontier ≡ true
within_frontier local = refl
within_frontier standard = refl
within_frontier frontier = refl

filter_frontier : (ps : List ProviderConfig) → filter (within_tier (some frontier)) ps ≡ ps
filter_frontier [] = refl
filter_frontier (p ∷ ps) =
    let e = within_frontier p.tier in let rest = filter_frontier ps in rw (e, rest) refl

-- The frontier tier leaves nothing out.
none_frontier :
    (policy : Option PolicyRule) (model : String) (ps : List ProviderConfig)
    → or_no_provider policy model none ps ≡ or_no_provider policy model (some frontier) ps
unfolding or_no_provider with_tier or_no_tier
none_frontier policy model [] = refl
none_frontier policy model (p ∷ ps) = rw (filter_frontier (p ∷ ps)) refl

module _ (j : Json) (f : F64) {F : Type 0} (json_len : List j.Value → Option ℕ)
    (request : ChatCompletionRequest j.Value F) (lower : String → String) (router : Router)
    (policy_name : Option String) where
  -- The estimate prices the first candidate that a chat request at the frontier tier selects for the
  -- same model, policy and prompt, and gives an error exactly where that selection does, the same.
  pub cost_estimate-first :
      cost_estimate j f json_len request lower router policy_name
      ≡ priced j f json_len request (
          first (
            select_candidates lower router request.model policy_name
              (user_prompt j request)
              (some frontier)))
  unfolding cost_estimate select select_candidates
  cost_estimate-first =
      ap (λ r. priced j f json_len request (first r))
        (none_frontier (find_policy lower router policy_name (user_prompt j request)) request.model
          (filter (serves request.model) router.providers))
