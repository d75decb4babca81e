-- ===== src/Examples/Stats.antt =====
-- Runs of the statistics and of the reconciliation loop.
use arbstr.Prelude.{
  ℕ, ◌+◌, ◌≡◌, ◌≤◌, ◌<◌, refl, Bool, true, false, none, some, String, List, [], ◌∷◌, ◌++◌, All,
  length, arith, str_eq, if◌then◌else◌,
}
use arbstr.Storage.Table.{Stored, Table}
use arbstr.Storage.Query.{matches, text_le}
use arbstr.Storage.Stats.{
  Functions, AggregateRow, distinct, aggregate, query_aggregate, grouped, query_grouped_by_model,
  query_grouped_by_tier,
}
use arbstr.Storage.Groups.{SameCounts, groups-partition}
use arbstr.Api.Stats.{StatsSections, stats_response}
use arbstr.Api.StatsLaws.{totals, models-lose}
use arbstr.Vault.Client
use arbstr.Vault.Client.{Answer}
use arbstr.Vault.Pending.{Request, max_settlement_attempts}
use arbstr.Vault.Loop.{Round, ticks, cancels, reconciliation_loop}
use arbstr.Vault.LoopLaws.{all_works, passes_made, cancelled}
use arbstr.Vault.LoopEnd.{reconciliation_loop-clears}
use arbstr.Examples.Serving.{digits}
use arbstr.Examples.Routing.{router}
use arbstr.Examples.Chat.{same}
use arbstr.Examples.Files.{log_of, everything}
use arbstr.Examples.Billing.{row, stored}

abbrev functions : Functions ℕ
functions = record { total_costs = λ cs. 0; total_tokens = λ ts. 0; average = λ ls. length ls }

abbrev logged : String → String → Bool → Stored ℕ
logged id model success = record {
  log = record (log_of id) { model = model; success = success };
  stream_duration_ms = none;
}

-- Two rows of "gpt-4o" and one of "GPT-4o".
abbrev logs : Table ℕ
logs = logged "c1" "gpt-4o" true ∷ logged "c2" "GPT-4o" false ∷ logged "c3" "gpt-4o" true ∷ []

abbrev in_order : List String → List String
in_order ks = ks

-- The rows of one spelling, while the groups by model are of both.
groups-partition_example :
    SameCounts
      (query_grouped_by_tier functions same in_order "2025" "2026" (some "gpt-4o") none logs)
      (query_aggregate functions same "2025" "2026" (some "gpt-4o") none logs)
    × SameCounts
        (query_grouped_by_model functions same in_order "2025" "2026" none logs)
        (query_aggregate functions same "2025" "2026" none none logs)
    × ((query_aggregate functions same "2025" "2026" (some "gpt-4o") none logs).success_count
          + (query_aggregate functions same "2025" "2026" (some "gpt-4o") none logs).error_count
        ≡ (query_aggregate functions same "2025" "2026" (some "gpt-4o") none logs).total_requests)
groups-partition_example =
    groups-partition functions same in_order (λ y ks. refl) "2025" "2026" (some "gpt-4o") none logs

-- One lower case for both spellings.
abbrev lower_case : String → String
lower_case s = if str_eq s "GPT-4o" then "gpt-4o" else s

abbrev small_spelling : String × AggregateRow ℕ
small_spelling =
    ("gpt-4o", aggregate functions (logged "c1" "gpt-4o" true ∷ logged "c3" "gpt-4o" true ∷ []))

abbrev large_spelling : String × AggregateRow ℕ
large_spelling = ("GPT-4o", aggregate functions (logged "c2" "GPT-4o" false ∷ []))

two_spellings :
    query_grouped_by_model functions same in_order "2025" "2026" none logs
    ≡ [] ++ small_spelling ∷ ([] ++ large_spelling ∷ [])
unfolding query_grouped_by_model grouped distinct matches text_le
two_spellings = refl

models-lose_example :
    let answer =
      stats_response 0
        (λ n. n)
        functions
        same
        lower_case
        in_order
        in_order
        router.providers
        everything
        (some "model")
        logs in
    (models : List (String × StatsSections ℕ)) × (answer.models ≡ some models)
    × (totals 0 (λ n. n) lower_case models < answer.sections.total)
models-lose_example =
    models-lose 0 (λ n. n) functions same lower_case in_order in_order (λ y ks. refl)
      router.providers everything logs [] [] [] small_spelling large_spelling refl two_spellings
      refl

abbrev quiet : Round
quiet = record { stored = []; wake = ticks }

-- Ten more passes; a row is stored before the last, which is the cancellation's.
abbrev ten_rounds : List Round
ten_rounds =
    quiet
    ∷ quiet
    ∷ quiet
    ∷ quiet
    ∷ quiet
    ∷ quiet
    ∷ quiet
    ∷ quiet
    ∷ quiet
    ∷ record { stored = row 4 "r4" 0 ∷ []; wake = cancels }
    ∷ []

-- In every pass the vault is out of reach.
abbrev never : ℕ → ℕ → Request → ℕ → Answer ℕ
never n id request k = Client.transport true "timeout"

reconciliation_loop-clears_example :
    let s =
      reconciliation_loop digits
        (λ s. none)
        (λ v. none)
        never
        all_works
        3
        ten_rounds
        false
        stored in
    (max_settlement_attempts ≤ passes_made ten_rounds → All (λ r. 4 ≤ r.id) s.table)
    × (s.ended ≡ cancelled ten_rounds)
reconciliation_loop-clears_example =
    reconciliation_loop-clears digits (λ s. none) (λ v. none) never 3 4 ten_rounds false stored
      ((refl, (refl, tt)), ((refl, tt), (tt, tt))) (omega arith, (omega arith, (omega arith, tt)))
      (tt, (tt, (tt, (tt, (tt, (tt, (tt, (tt, (tt, ((omega arith, tt), tt))))))))))
