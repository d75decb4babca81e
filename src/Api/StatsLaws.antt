-- ===== src/Api/StatsLaws.antt =====
-- src/proxy/stats.rs: models whose names differ in case only.
use arbstr.Prelude.{
  ℕ, ◌+◌, ◌≤◌, ◌<◌, ◌≡◌, refl, ap, none, some, String, List, [], ◌∷◌, ◌++◌, lookup, insert,
  lookup-insert, str_eq, str_eq_iff, All, Bool-cases, arith, Option-cases, inl, inr,
}
use arbstr.Router.Types.{ProviderConfig}
use arbstr.Storage.Table.{Table}
use arbstr.Storage.Query.{Filters}
use arbstr.Storage.Stats.{Functions, AggregateRow, query_grouped_by_model, distinct}
use arbstr.Storage.Groups.{sum_of, IsOrder, groups-partition, by_model-live}
use arbstr.Api.Health.{all_models}
use arbstr.Api.Weights.{weight, insert-le, insert_over, weight-remove}
use arbstr.Api.Stats.{
  StatsSections, remove, sections_of, zeroed, indexed, add_rest, add_names, entries_by_name,
  stats_response,
}

module _ {C : Type 0} (zero_f64 : C) (as_i64 : C → ℕ) (fold : String → String) where
  abbrev requests : String × AggregateRow C → ℕ
  requests g = g.1.total_requests

  -- An entry that stands for some request.
  HasRequest : String → List (String × (String × AggregateRow C)) → Type 0
  HasRequest k m = (g : String × AggregateRow C) × (lookup k m ≡ some g) × (1 ≤ requests g)

  insert-HasRequest :
      (k j : String) (g : String × AggregateRow C) (m : List (String × (String × AggregateRow C)))
      → 1 ≤ requests g
      → HasRequest k m
      → HasRequest k (insert j g m)
  unfolding HasRequest
  insert-HasRequest k j g m one (old, found, some_old) = elim (Bool-cases (str_eq j k)) [
    | inl e ↦ (g, rw (lookup-insert j k g m, e) refl, one)
    | inr e ↦ (old, rw (lookup-insert j k g m, e) found, some_old)
  ]

  indexed-le :
      (rows : List (String × AggregateRow C)) (m : List (String × (String × AggregateRow C)))
      → weight requests (indexed zero_f64 as_i64 fold rows m)
        ≤ weight requests m + sum_of requests rows
  unfolding indexed
  indexed-le [] m = omega arith
  indexed-le ((name, a) ∷ rows) m = omega (
    arith,
    indexed-le rows (insert (fold name) (name, a) m),
    insert-le requests (fold name) (name, a) m,
  )

  -- A row whose folded name is taken loses the requests of the row before it.
  indexed-lt :
      (b rest : List (String × AggregateRow C)) (s : String × AggregateRow C)
      (m : List (String × (String × AggregateRow C)))
      → All (λ g. 1 ≤ requests g) b
      → HasRequest (fold s.0) m
      → weight requests (indexed zero_f64 as_i64 fold (b ++ s ∷ rest) m)
        < weight requests m + sum_of requests (b ++ s ∷ rest)
  unfolding indexed HasRequest
  indexed-lt [] rest s m a (old, found, one) = omega (
    arith,
    insert_over requests (fold s.0) s old m found,
    indexed-le rest (insert (fold s.0) s m),
  )
  indexed-lt ((name, g) ∷ b) rest s m a has = omega (
    arith,
    insert-le requests (fold name) (name, g) m,
    indexed-lt b rest s (insert (fold name) (name, g) m) a.1
        (insert-HasRequest (fold s.0) (fold name) (name, g) m a.0 has),
  )

  indexed-two :
      (a b rest : List (String × AggregateRow C)) (r s : String × AggregateRow C)
      (m : List (String × (String × AggregateRow C)))
      → fold r.0 ≡ fold s.0
      → 1 ≤ requests r
      → All (λ g. 1 ≤ requests g) b
      → weight requests (indexed zero_f64 as_i64 fold (a ++ r ∷ (b ++ s ∷ rest)) m)
        < weight requests m + sum_of requests (a ++ r ∷ (b ++ s ∷ rest))
  unfolding indexed HasRequest
  indexed-two [] b rest r s m alike one some_b =
      let found : lookup (fold s.0) (insert (fold r.0) r m) ≡ some r =
        rw (lookup-insert (fold r.0) (fold s.0) r m, (str_eq_iff (fold r.0) (fold s.0)).1 alike)
          refl in
      omega (
        arith,
        insert-le requests (fold r.0) r m,
        indexed-lt b rest s (insert (fold r.0) r m) some_b (r, found, one),
      )
  indexed-two ((name, g) ∷ a) b rest r s m alike one some_b = omega (
    arith,
    insert-le requests (fold name) (name, g) m,
    indexed-two a b rest r s (insert (fold name) (name, g) m) alike one some_b,
  )

  abbrev pub totals : List (String × StatsSections C) → ℕ
  totals m = sum_of (λ e. e.1.total) m

  add_rest-le :
      (rows : List (String × (String × AggregateRow C))) (out : List (String × StatsSections C))
      → totals (add_rest zero_f64 as_i64 fold rows out) ≤ weight requests rows + totals out
  unfolding add_rest
  add_rest-le [] out = omega arith
  add_rest-le ((key, (name, a)) ∷ rest) out = omega (
    arith,
    insert-le (λ (v : StatsSections C). v.total) name (sections_of zero_f64 as_i64 a) out,
    add_rest-le rest (insert name (sections_of zero_f64 as_i64 a) out),
  )

  add_names-le :
      (ns : List String) (rows : List (String × (String × AggregateRow C)))
      (out : List (String × StatsSections C))
      → totals (add_names zero_f64 as_i64 fold ns rows out) ≤ weight requests rows + totals out
  unfolding add_names
  add_names-le [] rows out = add_rest-le rows out
  add_names-le (n ∷ ns) rows out = elim (Option-cases (lookup (fold n) rows)) [
    | inl e ↦
        rw (add_names, e)
          (omega (
            arith,
            insert-le (λ (v : StatsSections C). v.total) n (zeroed zero_f64 as_i64) out,
            add_names-le ns rows (insert n (zeroed zero_f64 as_i64) out),
          ))
    | inr (r, e) ↦
        rw (add_names, e)
          (omega (
            arith,
            weight-remove requests (fold n) r rows e,
            insert-le (λ (v : StatsSections C). v.total) n (sections_of zero_f64 as_i64 r.1) out,
            add_names-le ns (remove (fold n) rows) (insert n (sections_of zero_f64 as_i64 r.1) out),
          ))
  ]

  entries_by_name-lt :
      (names : List String) (a b rest : List (String × AggregateRow C))
      (r s : String × AggregateRow C)
      → fold r.0 ≡ fold s.0
      → 1 ≤ requests r
      → All (λ g. 1 ≤ requests g) b
      → totals (entries_by_name zero_f64 as_i64 fold names (a ++ r ∷ (b ++ s ∷ rest)))
        < sum_of requests (a ++ r ∷ (b ++ s ∷ rest))
  unfolding entries_by_name
  entries_by_name-lt names a b rest r s alike one some_b = omega (
    arith,
    indexed-two a b rest r s [] alike one some_b,
    add_names-le names (indexed zero_f64 as_i64 fold (a ++ r ∷ (b ++ s ∷ rest)) []) [],
  )

All-front {ℓ} : {A : Type 0} (P : A → Type ℓ) (b rest : List A) → All P (b ++ rest) → All P b
All-front P [] rest h = tt
All-front P (x ∷ b) rest h = (h.0, All-front P b rest h.1)

All-middle {ℓ} :
    {A : Type 0} (P : A → Type ℓ) (a b rest : List A) (r s : A)
    → All P (a ++ r ∷ (b ++ s ∷ rest))
    → P r × All P b
All-middle P [] b rest r s h = (h.0, All-front P b (s ∷ rest) h.1)
All-middle P (x ∷ a) b rest r s h = All-middle P a b rest r s h.1

-- Models that differ in case only: two groups whose names are the same in lower case, in any order of
-- the groups, with others between them.
module _ {C : Type 0} (zero_f64 : C) (as_i64 : C → ℕ) (sq : Functions C)
    (lower to_lowercase : String → String) (order visit : List String → List String)
    (orders : IsOrder order) (providers : List ProviderConfig) where
  -- The statistics by model, for filters without a model: if two of the models that were found are
  -- the same in lower case, then the requests of all models together are fewer than the total of
  -- the same answer, for every configuration: the one's take the place of the other's.
  pub models-lose :
      (f : Filters) (t : Table C) (a b rest : List (String × AggregateRow C))
      (r s : String × AggregateRow C)
      → f.model ≡ none
      → query_grouped_by_model sq lower order f.since f.until f.provider t
        ≡ a ++ r ∷ (b ++ s ∷ rest)
      → to_lowercase r.0 ≡ to_lowercase s.0
      → let answer =
          stats_response zero_f64 as_i64 sq lower to_lowercase order visit providers f
            (some "model")
            t in
        (models : List (String × StatsSections C)) × (answer.models ≡ some models)
        × (totals zero_f64 as_i64 to_lowercase models < answer.sections.total)
  unfolding stats_response
  models-lose f t a b rest r s no_model found alike =
      let live =
        All-middle (λ (g : String × AggregateRow C). 1 ≤ g.1.total_requests) a b rest r s
          (rw found at (by_model-live sq lower order orders f.since f.until f.provider t)) in
      (
        _,
        refl,
        rw (no_model, found)
            (omega (
              arith,
              (groups-partition sq lower order orders f.since f.until none f.provider
                  t).1.same_total,
              ap (λ gs. sum_of (requests zero_f64 as_i64 to_lowercase) gs) found,
              entries_by_name-lt zero_f64 as_i64 to_lowercase
                  (visit (distinct (all_models providers))) a b rest r s alike live.0 live.1,
            )),
      )
