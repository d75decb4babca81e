-- ===== src/Storage/Stats.antt =====
-- src/storage/stats.rs: the aggregates over the log, as the list of its rows. What SQLite's `TOTAL` and
-- `AVG` give, and the order in which it returns the groups, are arguments.
use arbstr.Prelude.{ℕ, not, Option, none, String, List, [], ◌∷◌, map, filter, length, str_eq}
use arbstr.Request.Types.{get_or}
use arbstr.Storage.Table.{Stored, Table}
use arbstr.Storage.Query.{matches}

-- SQLite's functions, on the values that a column has in a set of rows: `TOTAL` of the costs and of
-- the tokens, where `NULL` is left out, and `COALESCE(AVG(..), 0.0)`.
pub record Functions (C : Type 0) : Type 0 where
  pub total_costs : List (Option C) → C
  pub total_tokens : List (Option ℕ) → C
  pub average : List ℕ → C

pub record AggregateRow (C : Type 0) : Type 0 where
  pub total_requests : ℕ
  pub total_cost_sats : C
  pub total_input_tokens : C
  pub total_output_tokens : C
  pub avg_latency_ms : C
  pub success_count : ℕ
  pub error_count : ℕ
  pub streaming_count : ℕ

-- The distinct texts of a list.
unfoldable pub distinct : List String → List String
distinct [] = []
distinct (x ∷ xs) = x ∷ filter (λ y. not (str_eq y x)) (distinct xs)

module _ {C : Type 0} (sq : Functions C) where
  -- The `SELECT` list of the three queries, over the rows that are found.
  unfoldable pub aggregate : Table C → AggregateRow C
  aggregate rows = record {
    total_requests = length rows;
    total_cost_sats = sq.total_costs (map (λ r. r.log.cost_sats) rows);
    total_input_tokens = sq.total_tokens (map (λ r. r.log.input_tokens) rows);
    total_output_tokens = sq.total_tokens (map (λ r. r.log.output_tokens) rows);
    avg_latency_ms = sq.average (map (λ r. r.log.latency_ms) rows);
    success_count = length (filter (λ r. r.log.success) rows);
    error_count = length (filter (λ r. not r.log.success) rows);
    streaming_count = length (filter (λ r. r.log.streaming) rows);
  }

  module _ (lower : String → String) where
    -- The `WHERE` clause: the time range, and the model and the provider where they are given.
    abbrev pub found_by : String → String → Option String → Option String → Table C → Table C
    found_by since until model provider t =
        filter
          (matches lower (record {
            since = since;
            until = until;
            model = model;
            provider = provider;
            success = none;
            streaming = none;
          }))
          t

    unfoldable pub query_aggregate :
        String → String → Option String → Option String → Table C → AggregateRow C
    query_aggregate since until model provider t = aggregate (found_by since until model provider t)

    module _ (order : List String → List String) where
      -- `GROUP BY`, of the rows that are found.
      unfoldable pub grouped : (Stored C → String) → Table C → List (String × AggregateRow C)
      grouped key rows =
          map (λ k. (k, aggregate (filter (λ r. str_eq (key r) k) rows)))
            (order (distinct (map key rows)))

      -- The rows of every model: this query has no filter by model.
      unfoldable pub query_grouped_by_model :
          String → String → Option String → Table C → List (String × AggregateRow C)
      query_grouped_by_model since until provider t =
          grouped (λ r. r.log.model) (found_by since until none provider t)

      -- `COALESCE(tier, 'unknown')`.
      abbrev pub tier_of_row : Stored C → String
      tier_of_row r = get_or r.log.tier "unknown"

      unfoldable pub query_grouped_by_tier :
          String → String → Option String → Option String → Table C → List (String × AggregateRow C)
      query_grouped_by_tier since until model provider t =
          grouped tier_of_row (found_by since until model provider t)
