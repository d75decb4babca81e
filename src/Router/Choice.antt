-- ===== src/Router/Choice.antt =====
-- src/router/selector.rs: which providers `select_candidates` and `select` choose, and when they fail.
use arbstr.Prelude.{
  ℕ, ◌≤◌, ◌≡◌, refl, ap, ◌∙◌, ◌⊎◌, inl, inr, Bool, true, false, not, ◌&&◌, Option, some, String,
  List, [], ◌∷◌, map, arith, All, Any, any, All-mono, All-unfilter, All-filter-Any, is_empty,
  filter, is_empty-filter,
}
use arbstr.Router.Types.{Tier, ProviderConfig, SelectedProvider, selected, Result, ok, err}
use arbstr.Router.Sorting.{
  AtLeast, IsSorted, sort_by_key, sort_by_key-IsSorted, All-sort, All-unsort,
}
use arbstr.Router.Selector.{
  Router, serves, within_tier, routing_cost, unique_by_name, find_policy, select_candidates, first,
  select,
}
use arbstr.Router.Unique.{
  IsCovered, All-unique, IsSorted-unique, Distinct, Distinct-unique, unique-covers,
}
use arbstr.Router.Candidates.{
  affordable, forbidden, eligible, is_ok, select-ranked, is_ok-tier, three_filters,
}

-- An entry that stands among the eligible of the given providers.
abbrev pub IsEligibleOf : (ProviderConfig → Bool) → List ProviderConfig → ProviderConfig → Type 0
IsEligibleOf test ps q = Any (λ p. (test p ≡ true) × (q ≡ p)) ps

-- What a choice among the providers promises.
pub record IsChoice (test : ProviderConfig → Bool) (ps chosen : List ProviderConfig) : Type 0 where
  pub from_eligible : All (IsEligibleOf test ps) chosen
  pub cheapest_first : IsSorted routing_cost chosen
  pub names_distinct : Distinct chosen
  pub all_covered : All (λ p. test p ≡ true → IsCovered chosen p) ps

chosen_of : (ProviderConfig → Bool) → List ProviderConfig → List ProviderConfig
chosen_of test ps = unique_by_name [] (sort_by_key routing_cost (filter test ps))

IsCovered-only :
    (qs : List ProviderConfig) (p : ProviderConfig)
    → (false ≡ true) ⊎ IsCovered qs p
    → IsCovered qs p
IsCovered-only qs p (inl h) = cc
IsCovered-only qs p (inr c) = c

chosen-IsChoice :
    (test : ProviderConfig → Bool) (ps : List ProviderConfig) → IsChoice test ps (chosen_of test ps)
unfolding chosen_of
chosen-IsChoice test ps =
    let kept = filter test ps in
    let sorted = sort_by_key routing_cost kept in
    let in_order = sort_by_key-IsSorted routing_cost kept in
    record {
      from_eligible =
          All-unique _ [] sorted (All-sort _ routing_cost kept (All-filter-Any test ps));
      cheapest_first = IsSorted-unique [] sorted in_order;
      names_distinct = Distinct-unique [] sorted;
      all_covered = All-unfilter _ test ps (
          All-unsort _ routing_cost kept (
            All-mono _ _ sorted (IsCovered-only (unique_by_name [] sorted))
              (unique-covers [] sorted in_order)));
    }

module _ (lower : String → String) (r : Router) (model : String)
    (policy_name prompt : Option String) (t : Option Tier) where
  -- Whether a provider is eligible for the request.
  abbrev pub is_eligible : ProviderConfig → Bool
  is_eligible = eligible (find_policy lower r policy_name prompt) model t

  -- If `select_candidates` returns a list, then it is the conversion of a list of configured
  -- providers that are all eligible (they serve the model, are within the tier, and are within the
  -- rate of the policy that was found), in the order of routing cost, with no name twice; and
  -- for every eligible provider the list has one of the same name that costs no more.
  pub select_candidates-IsChoice :
      (out : List SelectedProvider)
      → select_candidates lower r model policy_name prompt t ≡ ok out
      → (chosen : List ProviderConfig) × (out ≡ map selected chosen)
        × IsChoice is_eligible r.providers chosen
  unfolding chosen_of
  select_candidates-IsChoice out h = (
    chosen_of is_eligible r.providers,
    (select-ranked lower r model policy_name prompt t out h).0,
    chosen-IsChoice is_eligible r.providers,
  )

  emptiness :
      is_empty (
        filter
          (affordable (find_policy lower r policy_name prompt))
          (filter (within_tier t) (filter (serves model) r.providers)))
      ≡ not (any is_eligible r.providers)
  emptiness =
      ap is_empty (three_filters (find_policy lower r policy_name prompt) model t r.providers)
      ∙ is_empty-filter is_eligible r.providers

  -- `select_candidates` succeeds exactly when the policy that was found does not forbid the model
  -- and some configured provider is eligible.
  pub select_candidates-is_ok : is_ok (select_candidates lower r model policy_name prompt t) ≡ (
      not (forbidden model (find_policy lower r policy_name prompt)) && any is_eligible r.providers)
  unfolding select_candidates
  select_candidates-is_ok = ground (
    arith,
    emptiness,
    is_ok-tier (find_policy lower r policy_name prompt) model t (filter (serves model) r.providers),
  )

head_of_covered :
    (chosen : List ProviderConfig) (p : ProviderConfig) (n : ℕ)
    → AtLeast routing_cost n chosen
    → IsCovered chosen p
    → n ≤ routing_cost p
head_of_covered [] p n a c = absurd c
head_of_covered (q ∷ qs) p n a (inl c) = omega arith
head_of_covered (q ∷ qs) p n a (inr c) = head_of_covered qs p n a.1 c

-- The cheapest of a list of providers that are all from the eligible ones.
abbrev pub IsCheapest : (ProviderConfig → Bool) → List ProviderConfig → ProviderConfig → Type 0
IsCheapest test ps p =
    IsEligibleOf test ps p × All (λ q. test q ≡ true → routing_cost p ≤ routing_cost q) ps

head-IsCheapest :
    (test : ProviderConfig → Bool) (ps : List ProviderConfig) (p : ProviderConfig)
    (rest : List ProviderConfig)
    → IsChoice test ps (p ∷ rest)
    → IsCheapest test ps p
head-IsCheapest test ps p rest c = (
  c.from_eligible.0,
  All-mono _ _ ps
      (λ q covered e.
        head_of_covered (p ∷ rest) q (routing_cost p) (omega arith, c.cheapest_first.0) (covered e))
      c.all_covered,
)

module _ (lower : String → String) (r : Router) (model : String)
    (policy_name prompt : Option String) (t : Option Tier) where
  -- The case of `select` where the candidates are at hand.
  select_from :
      (x : Result (List SelectedProvider)) (res : Option SelectedProvider)
      → select_candidates lower r model policy_name prompt t ≡ x
      → first x ≡ ok res
      → (p : ProviderConfig) × (res ≡ some (selected p))
        × IsCheapest (is_eligible lower r model policy_name prompt t) r.providers p
  select_from (err e) res eq h = absurd (ground arith)
  select_from (ok []) res eq h = cc ((select-ranked lower r model policy_name prompt t [] eq).1)
  select_from (ok (s ∷ out)) res eq h =
      let (chosen, same, choice) =
        select_candidates-IsChoice lower r model policy_name prompt t (s ∷ out) eq in
      go chosen same choice
    where
      go :
          (chosen : List ProviderConfig)
          → s ∷ out ≡ map selected chosen
          → IsChoice (is_eligible lower r model policy_name prompt t) r.providers chosen
          → (p : ProviderConfig) × (res ≡ some (selected p))
            × IsCheapest (is_eligible lower r model policy_name prompt t) r.providers p
      go [] same choice = cc
      go (p ∷ rest) same choice = (p, cc, head-IsCheapest _ r.providers p rest choice)

  -- If `select` returns, then it returns a provider (the removal of the first candidate does not
  -- panic): a configured and eligible one, whose routing cost is at most that of every eligible
  -- provider.
  select-IsCheapest :
      (res : Option SelectedProvider)
      → select lower r model policy_name prompt t ≡ ok res
      → (p : ProviderConfig) × (res ≡ some (selected p))
        × IsCheapest (is_eligible lower r model policy_name prompt t) r.providers p
  unfolding select
  select-IsCheapest res h =
      select_from (select_candidates lower r model policy_name prompt t) res refl h
