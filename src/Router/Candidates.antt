-- ===== src/Router/Candidates.antt =====
-- src/router/selector.rs: what `select_candidates` returns, against a description of the eligible
-- providers.
use arbstr.Prelude.{
  ◌≡◌, refl, ap, ◌∙◌, Bool, true, false, not, ◌&&◌, Option, none, some, String, List, [], ◌∷◌, map,
  arith, is_empty, filter, filter-filter, filter_all,
}
use arbstr.Router.Types.{
  Tier, ProviderConfig, PolicyRule, SelectedProvider, selected, Result, ok, err,
}
use arbstr.Router.Sorting.{sort_by_key, is_empty-sort}
use arbstr.Router.Selector.{
  Router, serves, within_tier, within_rate, forbids, routing_cost, unique_by_name, ranked,
  rank_candidates, with_policy, with_tier, find_policy, select_candidates, apply_policy_constraints,
}

-- The policy's bound on the output rate.
abbrev pub affordable : Option PolicyRule → ProviderConfig → Bool
affordable none p = true
affordable (some policy) p = within_rate policy.max_sats_per_1k_output p

abbrev pub forbidden : String → Option PolicyRule → Bool
forbidden model none = false
forbidden model (some policy) = forbids model policy

-- The providers that a request may go to.
abbrev pub eligible : Option PolicyRule → String → Option Tier → ProviderConfig → Bool
eligible policy model max_tier p = (serves model p && within_tier max_tier p) && affordable policy p

abbrev pub is_ok {ℓ} : {A : Type ℓ} → Result A → Bool
is_ok (ok _) = true
is_ok (err _) = false

-- The eligible providers, in three filters and in one.
pub three_filters :
    (policy : Option PolicyRule) (model : String) (t : Option Tier) (ps : List ProviderConfig)
    → filter (affordable policy) (filter (within_tier t) (filter (serves model) ps))
      ≡ filter (eligible policy model t) ps
three_filters policy model t ps =
    ap (filter (affordable policy)) (filter-filter (within_tier t) (serves model) ps)
    ∙ filter-filter (affordable policy) (λ p. serves model p && within_tier t p) ps

rank-ok :
    (ps : List ProviderConfig) (out : List SelectedProvider)
    → rank_candidates ps ≡ ok out
    → (out ≡ ranked ps) × (is_empty out ≡ false)
unfolding rank_candidates
rank-ok ps out h = ground arith

policy-ok :
    (policy : Option PolicyRule) (model : String) (ps : List ProviderConfig)
    (out : List SelectedProvider)
    → with_policy policy model ps ≡ ok out
    → (out ≡ ranked (filter (affordable policy) ps)) × (is_empty out ≡ false)
unfolding with_policy apply_policy_constraints
policy-ok none model ps out h = rw (filter_all (affordable none) ps (λ p. refl)) (rank-ok ps out h)
policy-ok (some policy) model ps out h =
    ground (arith, rank-ok (filter (within_rate policy.max_sats_per_1k_output) ps) out)

tier-ok :
    (policy : Option PolicyRule) (model : String) (t : Option Tier) (ps : List ProviderConfig)
    (out : List SelectedProvider)
    → with_tier policy model t ps ≡ ok out
    → (out ≡ ranked (filter (affordable policy) (filter (within_tier t) ps)))
      × (is_empty out ≡ false)
unfolding with_tier
tier-ok policy model none ps out h =
    rw (filter_all (within_tier none) ps (λ p. refl)) (policy-ok policy model ps out h)
tier-ok policy model (some t) ps out h =
    ground (arith, policy-ok policy model (filter (within_tier (some t)) ps) out)

module _ (lower : String → String) (r : Router) (model : String)
    (policy_name prompt : Option String) (t : Option Tier) where
  select-filters :
      (out : List SelectedProvider)
      → select_candidates lower r model policy_name prompt t ≡ ok out
      → let policy = find_policy lower r policy_name prompt in
        (out
          ≡ ranked (
              filter
                (affordable policy)
                (filter (within_tier t) (filter (serves model) r.providers))))
        × (is_empty out ≡ false)
  unfolding select_candidates
  select-filters out h = ground (
    arith,
    tier-ok (find_policy lower r policy_name prompt) model t (filter (serves model) r.providers)
        out,
  )

  pub select-ranked :
      (out : List SelectedProvider)
      → select_candidates lower r model policy_name prompt t ≡ ok out
      → (out
          ≡ ranked (filter (eligible (find_policy lower r policy_name prompt) model t) r.providers))
        × (is_empty out ≡ false)
  select-ranked out h = (
    (select-filters out h).0
        ∙ ap ranked (three_filters (find_policy lower r policy_name prompt) model t r.providers),
    (select-filters out h).1,
  )

is_empty-ranked : (ps : List ProviderConfig) → is_empty (ranked ps) ≡ is_empty ps
is_empty-ranked ps = go (sort_by_key routing_cost ps) ∙ is_empty-sort routing_cost ps
  where
    go : (qs : List ProviderConfig) → is_empty (map selected (unique_by_name [] qs)) ≡ is_empty qs
    go [] = unfold unique_by_name in refl
    go (q ∷ qs) = unfold unique_by_name in refl

is_ok-rank : (ps : List ProviderConfig) → is_ok (rank_candidates ps) ≡ not (is_empty ps)
unfolding rank_candidates
is_ok-rank ps = ground (arith, is_empty-ranked ps)

is_ok-policy :
    (policy : Option PolicyRule) (model : String) (ps : List ProviderConfig)
    → is_ok (with_policy policy model ps)
      ≡ (not (forbidden model policy) && not (is_empty (filter (affordable policy) ps)))
unfolding with_policy apply_policy_constraints
is_ok-policy none model ps = rw (filter_all (affordable none) ps (λ p. refl)) (is_ok-rank ps)
is_ok-policy (some policy) model ps =
    ground (arith, is_ok-rank (filter (within_rate policy.max_sats_per_1k_output) ps))

pub is_ok-tier :
    (policy : Option PolicyRule) (model : String) (t : Option Tier) (ps : List ProviderConfig)
    → is_ok (with_tier policy model t ps) ≡ (
        not (forbidden model policy)
        && not (is_empty (filter (affordable policy) (filter (within_tier t) ps))))
unfolding with_tier
is_ok-tier policy model none ps =
    rw (filter_all (within_tier none) ps (λ p. refl)) (is_ok-policy policy model ps)
is_ok-tier policy model (some t) ps =
    ground (arith, is_ok-policy policy model (filter (within_tier (some t)) ps))
