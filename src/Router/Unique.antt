-- ===== src/Router/Unique.antt =====
-- src/router/selector.rs: the deduplication by name of the sorted candidates.
use arbstr.Prelude.{
  ℕ, ◌≤◌, ◌≡◌, refl, sym, subst, ◌⊎◌, inl, inr, ◌≢◌, Bool, true, false, String, List, [], ◌∷◌,
  arith, All, Any, any, All-mono, All-zip, Bool-cases, str_eq, str_eq_iff,
}
use arbstr.Router.Types.{ProviderConfig}
use arbstr.Router.Selector.{routing_cost, unique_by_name}
use arbstr.Router.Sorting.{AtLeast, IsSorted}

abbrev pub seen_in : List String → ProviderConfig → Bool
seen_in seen p = any (λ n. str_eq n p.name) seen

-- A provider of the same name that costs no more.
abbrev pub Covers : ProviderConfig → ProviderConfig → Type 0
Covers p q = (q.name ≡ p.name) × (routing_cost q ≤ routing_cost p)

abbrev pub IsCovered : List ProviderConfig → ProviderConfig → Type 0
IsCovered qs p = Any (Covers p) qs

pub All-unique {κ} :
    (P : ProviderConfig → Type κ) (seen : List String) (ps : List ProviderConfig)
    → All P ps
    → All P (unique_by_name seen ps)
unfolding unique_by_name
All-unique P seen [] a = tt
All-unique P seen (p ∷ ps) a = elim (Bool-cases (seen_in seen p)) [
  | inl e ↦ rw (e, unique_by_name) (All-unique P seen ps a.1)
  | inr e ↦ rw (e, unique_by_name) (a.0, All-unique P (p.name ∷ seen) ps a.1)
]

AtLeast-unique :
    (n : ℕ) (seen : List String) (ps : List ProviderConfig)
    → AtLeast routing_cost n ps
    → AtLeast routing_cost n (unique_by_name seen ps)
unfolding unique_by_name
AtLeast-unique n seen [] a = tt
AtLeast-unique n seen (p ∷ ps) a = elim (Bool-cases (seen_in seen p)) [
  | inl e ↦ rw (e, unique_by_name) (AtLeast-unique n seen ps a.1)
  | inr e ↦ rw (e, unique_by_name) (a.0, AtLeast-unique n (p.name ∷ seen) ps a.1)
]

pub IsSorted-unique :
    (seen : List String) (ps : List ProviderConfig)
    → IsSorted routing_cost ps
    → IsSorted routing_cost (unique_by_name seen ps)
unfolding unique_by_name
IsSorted-unique seen [] s = tt
IsSorted-unique seen (p ∷ ps) s = elim (Bool-cases (seen_in seen p)) [
  | inl e ↦ rw (e, unique_by_name) (IsSorted-unique seen ps s.1)
  | inr e ↦
      rw (e, unique_by_name)
        (
          AtLeast-unique (routing_cost p) (p.name ∷ seen) ps s.0,
          IsSorted-unique (p.name ∷ seen) ps s.1,
        )
]

-- No name stands twice.
abbrev pub Distinct : List ProviderConfig → Type 0
Distinct [] = Unit
Distinct (p ∷ ps) = All (λ q. q.name ≢ p.name) ps × Distinct ps

unseen :
    (seen : List String) (ps : List ProviderConfig)
    → All (λ q. seen_in seen q ≡ false) (unique_by_name seen ps)
unfolding unique_by_name
unseen seen [] = tt
unseen seen (p ∷ ps) = elim (Bool-cases (seen_in seen p)) [
  | inl e ↦ rw (e, unique_by_name) (unseen seen ps)
  | inr e ↦
      rw (e, unique_by_name)
        (
          e,
          All-mono _ _ (unique_by_name (p.name ∷ seen) ps) (λ q h. ground (arith, h))
              (unseen (p.name ∷ seen) ps),
        )
]

unseen_ne :
    (seen : List String) (p q : ProviderConfig)
    → seen_in (p.name ∷ seen) q ≡ false
    → q.name ≢ p.name
unseen_ne seen p q h e = ground (arith, str_eq_iff p.name q.name)

pub Distinct-unique :
    (seen : List String) (ps : List ProviderConfig) → Distinct (unique_by_name seen ps)
unfolding unique_by_name
Distinct-unique seen [] = tt
Distinct-unique seen (p ∷ ps) = elim (Bool-cases (seen_in seen p)) [
  | inl e ↦ rw (e, unique_by_name) (Distinct-unique seen ps)
  | inr e ↦
      rw (e, unique_by_name)
        (
          All-mono _ _ (unique_by_name (p.name ∷ seen) ps) (unseen_ne seen p)
              (unseen (p.name ∷ seen) ps),
          Distinct-unique (p.name ∷ seen) ps,
        )
]

All-AtLeast :
    (n : ℕ) (ps : List ProviderConfig)
    → AtLeast routing_cost n ps
    → All (λ q. n ≤ routing_cost q) ps
All-AtLeast n [] a = tt
All-AtLeast n (p ∷ ps) a = (a.0, All-AtLeast n ps a.1)

-- One step of the covering: `p` has just been kept.
kept_covers :
    (seen : List String) (p q : ProviderConfig) (out : List ProviderConfig)
    → routing_cost p ≤ routing_cost q
    → (seen_in (p.name ∷ seen) q ≡ true) ⊎ IsCovered out q
    → (seen_in seen q ≡ true) ⊎ IsCovered (p ∷ out) q
kept_covers seen p q out le (inr c) = inr (inr c)
kept_covers seen p q out le (inl s) = elim (Bool-cases (str_eq p.name q.name)) [
  | inl e ↦ inr (inl ((str_eq_iff p.name q.name).0 e, le))
  | inr e ↦ inl (ground arith)
]

unique_skips :
    (seen : List String) (p : ProviderConfig) (ps : List ProviderConfig)
    → seen_in seen p ≡ true
    → unique_by_name seen (p ∷ ps) ≡ unique_by_name seen ps
unfolding unique_by_name
unique_skips seen p ps e = rw e

unique_keeps :
    (seen : List String) (p : ProviderConfig) (ps : List ProviderConfig)
    → seen_in seen p ≡ false
    → unique_by_name seen (p ∷ ps) ≡ p ∷ unique_by_name (p.name ∷ seen) ps
unfolding unique_by_name
unique_keeps seen p ps e = rw e

-- Every entry's name was seen before, or the result covers the entry.
abbrev pub Covering : List String → List ProviderConfig → List ProviderConfig → Type 0
Covering seen ps out = All (λ q. (seen_in seen q ≡ true) ⊎ IsCovered out q) ps

pub unique-covers :
    (seen : List String) (ps : List ProviderConfig)
    → IsSorted routing_cost ps
    → Covering seen ps (unique_by_name seen ps)
unique-covers seen [] s = tt
unique-covers seen (p ∷ ps) s = elim (Bool-cases (seen_in seen p)) [
  | inl e ↦
      subst (Covering seen (p ∷ ps)) (sym (unique_skips seen p ps e))
        (inl e, unique-covers seen ps s.1)
  | inr e ↦ subst (Covering seen (p ∷ ps)) (sym (unique_keeps seen p ps e)) (
    inr (inl (refl, omega arith)),
    All-zip _ _ _ ps (λ q le c. kept_covers seen p q _ le c) (All-AtLeast (routing_cost p) ps s.0)
        (unique-covers (p.name ∷ seen) ps s.1),
  )
]
