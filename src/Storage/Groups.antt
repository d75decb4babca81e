-- ===== src/Storage/Groups.antt =====
-- src/storage/stats.rs: what the groups of rows have together.
use arbstr.Prelude.{
  Option, none, ℕ, suc, ◌+◌, ◌≤◌, ◌≡◌, refl, sym, ap, ◌∙◌, Bool, true, not, String, List, [], ◌∷◌,
  map, filter, length, str_eq, str_eq_iff, if◌then◌else◌, All, All-mono, any, arith,
}
use mathlib.Core.Path.{fun_ext}
use arbstr.Storage.Table.{Stored, Table}
use arbstr.Storage.Stats.{
  Functions, AggregateRow, distinct, aggregate, query_aggregate, grouped, query_grouped_by_model,
  query_grouped_by_tier, found_by,
}

-- How often a text is in a list.
abbrev pub occurrences : String → List String → ℕ
occurrences x [] = 0
occurrences x (y ∷ ys) = (if str_eq x y then 1 else 0) + occurrences x ys

-- What a number comes to over all entries.
abbrev pub sum_of {ℓ} : {A : Type ℓ} → (A → ℕ) → List A → ℕ
sum_of f [] = 0
sum_of f (x ∷ xs) = f x + sum_of f xs

sum_of-map {ℓ κ} :
    {A : Type ℓ} {B : Type κ} (f : B → ℕ) (g : A → B) (xs : List A)
    → sum_of f (map g xs) ≡ sum_of (λ x. f (g x)) xs
sum_of-map f g [] = refl
sum_of-map f g (x ∷ xs) = omega (arith, sum_of-map f g xs)

sum_of-zero : (ks : List String) → sum_of (λ k. 0) ks ≡ 0
sum_of-zero [] = refl
sum_of-zero (k ∷ ks) = omega (arith, sum_of-zero ks)

occurrences-filter :
    (x y : String) (ys : List String)
    → occurrences y (filter (λ z. not (str_eq z x)) ys)
      ≡ (if str_eq y x then 0 else occurrences y ys)
occurrences-filter x y [] = ground arith
occurrences-filter x y (z ∷ zs) =
    ground (arith, str_eq_iff y x, str_eq_iff z x, str_eq_iff y z, occurrences-filter x y zs)

module _ {C : Type 0} (key : Stored C → String) (p : Stored C → Bool) where
  -- The rows of a group that pass a test.
  in_group : Table C → String → ℕ
  in_group rows k = length (filter p (filter (λ r. str_eq (key r) k) rows))

  -- One more row counts once in each group of its key.
  sum_of-cons :
      (r : Stored C) (rows : Table C) (ks : List String)
      → sum_of (in_group (r ∷ rows)) ks
        ≡ (if p r then occurrences (key r) ks else 0) + sum_of (in_group rows) ks
  unfolding in_group
  sum_of-cons r rows [] = ground arith
  sum_of-cons r rows (k ∷ ks) = ground (arith, sum_of-cons r rows ks)

  -- Where every key is listed once, the groups hold every row that passes once.
  sum_of-groups :
      (rows : Table C) (ks : List String)
      → All (λ r. occurrences (key r) ks ≡ 1) rows
      → sum_of (in_group rows) ks ≡ length (filter p rows)
  unfolding in_group
  sum_of-groups [] ks a = sum_of-zero ks
  sum_of-groups (r ∷ rows) ks a = ground (arith, sum_of-cons r rows ks, sum_of-groups rows ks a.1)

-- A text is listed once among the distinct ones if it is in the list.
occurrences-distinct :
    (y : String) (xs : List String)
    → occurrences y (distinct xs) ≡ (if any (λ x. str_eq y x) xs then 1 else 0)
unfolding distinct
occurrences-distinct y [] = refl
occurrences-distinct y (x ∷ xs) =
    ground (arith, occurrences-filter x y (distinct xs), occurrences-distinct y xs)

module _ {C : Type 0} (key : Stored C → String) where
  All-listed : (rows : Table C) → All (λ r. any (λ k. str_eq (key r) k) (map key rows) ≡ true) rows
  All-listed [] = tt
  All-listed (r ∷ rows) = (
    ground (arith, str_eq_iff (key r) (key r)),
    All-mono (λ q. any (λ k. str_eq (key q) k) (map key rows) ≡ true)
        (λ q. any (λ k. str_eq (key q) k) (map key (r ∷ rows)) ≡ true) rows (λ q h. ground arith)
        (All-listed rows),
  )

All-occur : (ks : List String) → All (λ k. 1 ≤ occurrences k ks) ks
All-occur [] = tt
All-occur (k ∷ ks) = (
  ground (arith, str_eq_iff k k),
  All-mono (λ j. 1 ≤ occurrences j ks) (λ j. 1 ≤ occurrences j (k ∷ ks)) ks (λ j h. omega arith)
      (All-occur ks),
)

All-map {ℓ κ μ} :
    {A : Type ℓ} {B : Type κ} (P : B → Type μ) (g : A → B) (xs : List A)
    → All (λ x. P (g x)) xs
    → All P (map g xs)
All-map P g [] a = tt
All-map P g (x ∷ xs) a = (a.0, All-map P g xs a.1)

holds_row :
    {C : Type 0} (key : Stored C → String) (k : String) (rows : Table C)
    → any (λ x. str_eq k x) (map key rows) ≡ true
    → 1 ≤ length (filter (λ r. str_eq (key r) k) rows)
holds_row key k [] h = cc
holds_row key k (r ∷ rows) h =
    ground (arith, str_eq_iff k (key r), str_eq_iff (key r) k, holds_row key k rows)

-- The counts of rows that stand for groups are together those of a row.
pub record SameCounts {C : Type 0} (gs : List (String × AggregateRow C)) (a : AggregateRow C)
    : Type 0 where
  pub same_total : sum_of (λ g. g.1.total_requests) gs ≡ a.total_requests
  pub same_success : sum_of (λ g. g.1.success_count) gs ≡ a.success_count
  pub same_error : sum_of (λ g. g.1.error_count) gs ≡ a.error_count
  pub same_streaming : sum_of (λ g. g.1.streaming_count) gs ≡ a.streaming_count

-- An order in which the groups may come: it lists every text as often.
abbrev pub IsOrder : (List String → List String) → Type 0
IsOrder order = (y : String) (ks : List String) → occurrences y (order ks) ≡ occurrences y ks

module _ {C : Type 0} (sq : Functions C) (lower : String → String)
    (order : List String → List String) (orders : IsOrder order) where
  All-once :
      (key : Stored C → String) (rows : Table C)
      → All (λ r. occurrences (key r) (order (distinct (map key rows))) ≡ 1) rows
  All-once key rows =
      All-mono (λ r. any (λ k. str_eq (key r) k) (map key rows) ≡ true)
        (λ r. occurrences (key r) (order (distinct (map key rows))) ≡ 1) rows
        (λ r h. ground (
          arith,
          orders (key r) (distinct (map key rows)),
          occurrences-distinct (key r) (map key rows),
        ))
        (All-listed key rows)

  counted_once :
      (key : Stored C → String) (p : Stored C → Bool) (rows : Table C)
      (f : String × AggregateRow C → ℕ)
      → ((k : String)
          → f (k, aggregate sq (filter (λ r. str_eq (key r) k) rows)) ≡ in_group key p rows k)
      → sum_of f (grouped sq lower order key rows) ≡ length (filter p rows)
  unfolding grouped
  counted_once key p rows f same =
      let ks = order (distinct (map key rows)) in
      sum_of-map f (λ k. (k, aggregate sq (filter (λ r. str_eq (key r) k) rows))) ks
      ∙ (ap (λ g. sum_of g ks) (fun_ext same) ∙ sum_of-groups key p rows ks (All-once key rows))

  length-all : (rows : Table C) → length (filter (λ r. true) rows) ≡ length rows
  length-all [] = refl
  length-all (r ∷ rows) = ap suc (length-all rows)

  grouped-SameCounts :
      (key : Stored C → String) (rows : Table C)
      → SameCounts (grouped sq lower order key rows) (aggregate sq rows)
  unfolding aggregate in_group
  grouped-SameCounts key rows = record {
    same_total = counted_once key (λ r. true) rows _ (λ k. sym (length-all _)) ∙ length-all rows;
    same_success = counted_once key (λ r. r.log.success) rows _ (λ k. refl);
    same_error = counted_once key (λ r. not r.log.success) rows _ (λ k. refl);
    same_streaming = counted_once key (λ r. r.log.streaming) rows _ (λ k. refl);
  }

  success-error :
      (rows : Table C)
      → (aggregate sq rows).success_count + (aggregate sq rows).error_count ≡ length rows
  unfolding aggregate
  success-error [] = refl
  success-error (r ∷ rows) = ground (arith, success-error rows)

  -- No group is empty.
  grouped-live :
      (key : Stored C → String) (rows : Table C)
      → All (λ g. 1 ≤ g.1.total_requests) (grouped sq lower order key rows)
  unfolding grouped aggregate
  grouped-live key rows =
      let ks = order (distinct (map key rows)) in
      All-map (λ (g : String × AggregateRow C). 1 ≤ g.1.total_requests)
        (λ k. (k, aggregate sq (filter (λ r. str_eq (key r) k) rows))) ks
        (All-mono (λ k. 1 ≤ occurrences k ks)
          (λ k. 1 ≤ length (filter (λ r. str_eq (key r) k) rows)) ks
          (λ k h. holds_row key k rows (
            ground
              (arith, orders k (distinct (map key rows)), occurrences-distinct k (map key rows))))
          (All-occur ks))

  pub by_model-live :
      (since until : String) (provider : Option String) (t : Table C)
      → All
          (λ g. 1 ≤ g.1.total_requests)
          (query_grouped_by_model sq lower order since until provider t)
  unfolding query_grouped_by_model
  by_model-live since until provider t =
      grouped-live (λ r. r.log.model) (found_by sq lower since until none provider t)

  -- In whatever order SQLite returns the groups, for every table, time range, model filter and provider
  -- filter: the groups by tier have together as many requests, successes, errors and streams as the
  -- aggregate of the same filters; the groups by model, whose query has no model filter, as many as the
  -- aggregate without the model filter; and every request of the aggregate is a success or an error.
  pub groups-partition :
      (since until : String) (model provider : Option String) (t : Table C)
      → SameCounts
          (query_grouped_by_tier sq lower order since until model provider t)
          (query_aggregate sq lower since until model provider t)
        × SameCounts
            (query_grouped_by_model sq lower order since until provider t)
            (query_aggregate sq lower since until none provider t)
        × ((query_aggregate sq lower since until model provider t).success_count
              + (query_aggregate sq lower since until model provider t).error_count
            ≡ (query_aggregate sq lower since until model provider t).total_requests)
  unfolding query_grouped_by_model query_grouped_by_tier query_aggregate aggregate
  groups-partition since until model provider t = (
    grouped-SameCounts _ (found_by sq lower since until model provider t),
    grouped-SameCounts _ (found_by sq lower since until none provider t),
    success-error (found_by sq lower since until model provider t),
  )
