-- ===== src/Router/Selector.antt =====
-- src/router/selector.rs: `Router`, its selection of candidates, and the frontier rates.
-- `str::to_lowercase`, the Unicode case mapping, is an argument.
use arbstr.Prelude.{
  ℕ, ◌+◌, ◌%◌, ◌^◌, ◌<>◌, max, Bool, true, not, ◌&&◌, ◌||◌, Option, none, some, String, List, [],
  ◌∷◌, map, leb, str_eq, if◌then◌else◌, filter, any, find, is_empty,
}
use arbstr.Router.Types.{
  Tier, tier_le, ProviderConfig, PolicyRule, SelectedProvider, selected, Error, no_providers,
  no_policy_match, no_tier_match, bad_request, Result, ok, err, contains,
}
use arbstr.Router.Sorting.{sort_by_key}

pub record Router : Type 0 where
  pub providers : List ProviderConfig
  pub policy_rules : List PolicyRule
  pub default_strategy : String

abbrev pub u64 : ℕ → ℕ
u64 n = n % 2 ^ 64

-- `p.models.is_empty() || p.models.iter().any(|m| m == model)`.
abbrev pub serves : String → ProviderConfig → Bool
serves model p = is_empty p.models || any (λ m. str_eq m model) p.models

-- The sort's key, `p.output_rate + p.base_fee` in `u64`.
abbrev pub routing_cost : ProviderConfig → ℕ
routing_cost p = u64 (p.output_rate + p.base_fee)

-- The keyword loop of `find_policy`.
abbrev matches_keyword : (String → String) → String → PolicyRule → Bool
matches_keyword to_lowercase prompt_lower rule =
    any (λ kw. contains prompt_lower (to_lowercase kw)) rule.keywords

by_keyword : (String → String) → Option String → List PolicyRule → Option PolicyRule
by_keyword to_lowercase none rules = none
by_keyword to_lowercase (some prompt) rules =
    find (matches_keyword to_lowercase (to_lowercase prompt)) rules

or_keyword : Option PolicyRule → Option PolicyRule → Option PolicyRule
or_keyword (some rule) _ = some rule
or_keyword none fallback = fallback

by_name : Option String → List PolicyRule → Option PolicyRule
by_name none rules = none
by_name (some name) rules = find (λ p. str_eq p.name name) rules

-- First the header's name, then the keywords.
unfoldable pub find_policy :
    (String → String) → Router → Option String → Option String → Option PolicyRule
unfolding by_keyword or_keyword by_name
find_policy to_lowercase r policy_name prompt =
    or_keyword (by_name policy_name r.policy_rules) (by_keyword to_lowercase prompt r.policy_rules)

not_allowed : String → PolicyRule → Error
not_allowed model policy =
    bad_request ("Model '" <> model <> "' not allowed by policy '" <> policy.name <> "'")

abbrev pub within_rate : Option ℕ → ProviderConfig → Bool
within_rate none p = true
within_rate (some max_sats) p = leb p.output_rate max_sats

-- `!policy.allowed_models.is_empty() && !policy.allowed_models.iter().any(|m| m == model)`.
abbrev pub forbids : String → PolicyRule → Bool
forbids model policy =
    not (is_empty policy.allowed_models) && not (any (λ m. str_eq m model) policy.allowed_models)

or_no_match : List ProviderConfig → Result (List ProviderConfig)
or_no_match [] = err no_policy_match
or_no_match (p ∷ ps) = ok (p ∷ ps)

unfoldable pub apply_policy_constraints :
    List ProviderConfig → PolicyRule → String → Result (List ProviderConfig)
unfolding or_no_match not_allowed
apply_policy_constraints candidates policy model =
    if forbids model policy
    then err (not_allowed model policy)
    else or_no_match (filter (within_rate policy.max_sats_per_1k_output) candidates)

-- `filter(|p| seen.insert(p.name.clone()))`, with the names seen as a list.
unfoldable pub unique_by_name : List String → List ProviderConfig → List ProviderConfig
unique_by_name seen [] = []
unique_by_name seen (p ∷ ps) =
    if any (λ n. str_eq n p.name) seen
    then unique_by_name seen ps
    else p ∷ unique_by_name (p.name ∷ seen) ps

or_no_unique : List SelectedProvider → Result (List SelectedProvider)
or_no_unique [] = err no_policy_match
or_no_unique (p ∷ ps) = ok (p ∷ ps)

-- Sorted, deduplicated and converted.
abbrev pub ranked : List ProviderConfig → List SelectedProvider
ranked ps = map selected (unique_by_name [] (sort_by_key routing_cost ps))

unfoldable pub rank_candidates : List ProviderConfig → Result (List SelectedProvider)
unfolding or_no_unique
rank_candidates ps = or_no_unique (ranked ps)

abbrev rank_result : Result (List ProviderConfig) → Result (List SelectedProvider)
rank_result (ok ps) = rank_candidates ps
rank_result (err e) = err e

unfoldable pub with_policy :
    Option PolicyRule → String → List ProviderConfig → Result (List SelectedProvider)
unfolding rank_candidates apply_policy_constraints
with_policy none model ps = rank_candidates ps
with_policy (some policy) model ps = rank_result (apply_policy_constraints ps policy model)

abbrev pub within_tier : Option Tier → ProviderConfig → Bool
within_tier none p = true
within_tier (some max_tier) p = tier_le p.tier max_tier

unfoldable pub or_no_tier :
    Option PolicyRule → String → Tier → List ProviderConfig → Result (List SelectedProvider)
or_no_tier policy model tier [] = err (no_tier_match tier model)
or_no_tier policy model tier (p ∷ ps) = with_policy policy model (p ∷ ps)

unfoldable pub with_tier :
    Option PolicyRule → String → Option Tier → List ProviderConfig → Result (List SelectedProvider)
unfolding with_policy or_no_tier
with_tier policy model none ps = with_policy policy model ps
with_tier policy model (some t) ps = or_no_tier policy model t (filter (within_tier (some t)) ps)

unfoldable pub or_no_provider :
    Option PolicyRule → String → Option Tier → List ProviderConfig → Result (List SelectedProvider)
or_no_provider policy model max_tier [] = err (no_providers model)
or_no_provider policy model max_tier (p ∷ ps) = with_tier policy model max_tier (p ∷ ps)

unfoldable pub select_candidates :
    (String → String)
    → Router
    → String
    → Option String
    → Option String
    → Option Tier
    → Result (List SelectedProvider)
unfolding or_no_provider with_tier find_policy
select_candidates to_lowercase r model policy_name prompt max_tier =
    or_no_provider (find_policy to_lowercase r policy_name prompt) model max_tier
      (filter (serves model) r.providers)

-- `v.remove(0)`, which panics on an empty vector: `none`.
abbrev pub first : Result (List SelectedProvider) → Result (Option SelectedProvider)
first (ok []) = ok none
first (ok (p ∷ ps)) = ok (some p)
first (err e) = err e

unfoldable pub select :
    (String → String)
    → Router
    → String
    → Option String
    → Option String
    → Option Tier
    → Result (Option SelectedProvider)
unfolding select_candidates
select to_lowercase r model policy_name prompt max_tier =
    first (select_candidates to_lowercase r model policy_name prompt max_tier)

-- `iter().map(f).max().unwrap_or(0)`.
abbrev pub max_of : (ProviderConfig → ℕ) → List ProviderConfig → ℕ
max_of f [] = 0
max_of f (p ∷ ps) = max (f p) (max_of f ps)

abbrev pub rates_of : List ProviderConfig → Option (ℕ × ℕ × ℕ)
rates_of [] = none
rates_of (p ∷ ps) = some (
  max_of (λ q. q.input_rate) (p ∷ ps),
  max_of (λ q. q.output_rate) (p ∷ ps),
  max_of (λ q. q.base_fee) (p ∷ ps),
)

unfoldable pub frontier_rates : Router → String → Option (ℕ × ℕ × ℕ)
frontier_rates r model = rates_of (filter (serves model) r.providers)
