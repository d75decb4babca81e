-- ===== src/Router/Rates.antt =====
-- src/router/selector.rs and src/config.rs: the frontier rates, and what escalation of the tier does.
use arbstr.Prelude.{
  ℕ, ◌≤◌, ◌≡◌, sym, subst, inl, inr, Bool, true, false, Option, none, some, String, suc, ◌↔◌, List,
  [], ◌∷◌, arith, All, All-mono, All-zip, is_empty-filter, any, All-unfilter,
}
use arbstr.Router.Types.{Tier, escalate, rank, ProviderConfig, PolicyRule}
use arbstr.Router.Selector.{
  Router, serves, max_of, rates_of, frontier_rates, find_policy, routing_cost,
}
use arbstr.Router.Candidates.{eligible}
use arbstr.Router.Choice.{is_eligible, IsEligibleOf, IsCheapest}

-- The rates of a provider are within a triple of rates.
abbrev pub Within : ℕ × ℕ × ℕ → ProviderConfig → Type 0
Within (i, o, b) p = (p.input_rate ≤ i) × (p.output_rate ≤ o) × (p.base_fee ≤ b)

max_of-le : (f : ProviderConfig → ℕ) (ps : List ProviderConfig) → All (λ p. f p ≤ max_of f ps) ps
max_of-le f [] = tt
max_of-le f (p ∷ ps) = (omega arith, All-mono _ _ ps (λ q h. omega arith) (max_of-le f ps))

Within-max :
    (ps : List ProviderConfig)
    → All
        (Within (
          max_of (λ q. q.input_rate) ps,
          max_of (λ q. q.output_rate) ps,
          max_of (λ q. q.base_fee) ps,
        ))
        ps
Within-max ps =
    All-zip _
      (λ p.
        (p.output_rate ≤ max_of (λ q. q.output_rate) ps)
        × (p.base_fee ≤ max_of (λ q. q.base_fee) ps))
      _ ps (λ p i ob. (i, ob.0, ob.1)) (max_of-le (λ q. q.input_rate) ps)
      (All-zip _ _ _ ps (λ p o b. (o, b)) (max_of-le (λ q. q.output_rate) ps)
        (max_of-le (λ q. q.base_fee) ps))

Within-rates :
    (ps : List ProviderConfig) (rates : ℕ × ℕ × ℕ)
    → rates_of ps ≡ some rates
    → All (Within rates) ps
Within-rates [] rates h = tt
Within-rates (p ∷ ps) rates h =
    subst (λ t. All (Within t) (p ∷ ps)) (ground arith) (Within-max (p ∷ ps))

-- If `frontier_rates` returns a triple for a model, then the three rates of every configured provider
-- that serves the model are within it.
pub frontier_rates-Within :
    (r : Router) (model : String) (rates : ℕ × ℕ × ℕ)
    → frontier_rates r model ≡ some rates
    → All (λ p. serves model p ≡ true → Within rates p) r.providers
unfolding frontier_rates
frontier_rates-Within r model rates h =
    All-unfilter (Within rates) (serves model) r.providers (Within-rates _ rates h)

-- It returns none exactly when no configured provider serves the model.
pub frontier_rates-none :
    (r : Router) (model : String)
    → frontier_rates r model ≡ none ↔ any (serves model) r.providers ≡ false
unfolding frontier_rates
frontier_rates-none r model = (
  (λ h. ground (arith, is_empty-filter (serves model) r.providers)),
  (λ h. ground (arith, is_empty-filter (serves model) r.providers)),
)

-- Escalation goes one rank up, and a provider that is eligible stays so.
pub escalate-eligible :
    (policy : Option PolicyRule) (model : String) (t t' : Tier) (p : ProviderConfig)
    → escalate t ≡ some t'
    → (rank t' ≡ suc (rank t))
      × (eligible policy model (some t) p ≡ true → eligible policy model (some t') p ≡ true)
unfolding escalate
escalate-eligible policy model t t' p h = ground arith

least_at :
    (test : ProviderConfig → Bool) (ps : List ProviderConfig) (p : ProviderConfig) (n : ℕ)
    → IsEligibleOf test ps p
    → All (λ q. test q ≡ true → n ≤ routing_cost q) ps
    → n ≤ routing_cost p
least_at test [] p n a least = absurd a
least_at test (q ∷ qs) p n (inl (e, same)) least =
    subst (λ x. n ≤ routing_cost x) (sym same) (least.0 e)
least_at test (q ∷ qs) p n (inr a) least = least_at test qs p n a least.1

module _ (lower : String → String) (r : Router) (model : String)
    (policy_name prompt : Option String) (t t' : Tier) (up : escalate t ≡ some t') where
  -- The cheapest eligible provider one tier up costs no more than the cheapest at the tier itself.
  escalate-cheaper :
      (p p' : ProviderConfig)
      → IsCheapest (is_eligible lower r model policy_name prompt (some t)) r.providers p
      → IsCheapest (is_eligible lower r model policy_name prompt (some t')) r.providers p'
      → routing_cost p' ≤ routing_cost p
  escalate-cheaper p p' c c' =
      least_at (is_eligible lower r model policy_name prompt (some t)) r.providers p
        (routing_cost p') c.0
        (All-mono _ _ r.providers
          (λ q least e.
            least
              ((escalate-eligible (find_policy lower r policy_name prompt) model t t' q up).1 e))
          c'.1)
