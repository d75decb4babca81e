-- ===== src/Api/Stats.antt =====
-- src/proxy/stats.rs: `stats_handler`. A `HashMap` and a JSON object are lists of entries; the order in
-- which a `HashSet` gives its entries is an argument.
use arbstr.Prelude.{
  ℕ, ◌&&◌, ◌==◌, Bool, true, false, not, Option, none, some, String, List, [], ◌∷◌, lookup, insert,
  str_eq, if◌then◌else◌,
}
use arbstr.Router.Types.{ProviderConfig, bad_request, internal, Result, ok, err}
use arbstr.Storage.Table.{Table}
use arbstr.Storage.Query.{Filters}
use arbstr.Storage.Stats.{
  Functions, AggregateRow, distinct, query_aggregate, query_grouped_by_model, query_grouped_by_tier,
}
use arbstr.Api.Range.{
  ◌>>=◌, Read, optional, resolve_time_range, validate_model_filter, validate_provider_filter,
}
use arbstr.Api.Health.{all_models}

pub record StatsQuery : Type 0 where
  pub range : Option String
  pub since : Option String
  pub until : Option String
  pub model : Option String
  pub provider : Option String
  pub group_by : Option String

-- The sections `counts`, `costs` and `performance`, written flat.
pub record StatsSections (C : Type 0) : Type 0 where
  pub total : ℕ
  pub success : ℕ
  pub error : ℕ
  pub streaming : ℕ
  pub total_cost_sats : C
  pub total_input_tokens : ℕ
  pub total_output_tokens : ℕ
  pub avg_latency_ms : C

pub record StatsResponse (C : Type 0) : Type 0 where
  pub since : String
  pub until : String
  pub empty : Option Bool
  pub message : Option String
  pub sections : StatsSections C
  pub models : Option (List (String × StatsSections C))
  pub tiers : Option (List (String × StatsSections C))

-- `HashMap::remove`.
unfoldable pub remove {ℓ} : {V : Type ℓ} → String → List (String × V) → List (String × V)
remove k [] = []
remove k ((j, v) ∷ m) = if str_eq j k then m else (j, v) ∷ remove k m

module _ {C : Type 0} (zero_f64 : C) (as_i64 : C → ℕ) where
  -- `model_row_to_json` and `tier_row_to_json`.
  abbrev pub sections_of : AggregateRow C → StatsSections C
  sections_of r = record {
    total = r.total_requests;
    success = r.success_count;
    error = r.error_count;
    streaming = r.streaming_count;
    total_cost_sats = r.total_cost_sats;
    total_input_tokens = as_i64 r.total_input_tokens;
    total_output_tokens = as_i64 r.total_output_tokens;
    avg_latency_ms = r.avg_latency_ms;
  }

  -- `zeroed_model_json`.
  abbrev pub zeroed : StatsSections C
  zeroed = record {
    total = 0;
    success = 0;
    error = 0;
    streaming = 0;
    total_cost_sats = zero_f64;
    total_input_tokens = 0;
    total_output_tokens = 0;
    avg_latency_ms = zero_f64;
  }

  module _ (fold : String → String) where
    -- The rows by their names, folded; a later row takes the place of an earlier one.
    unfoldable pub indexed :
        List (String × AggregateRow C)
        → List (String × (String × AggregateRow C))
        → List (String × (String × AggregateRow C))
    indexed [] m = m
    indexed ((name, a) ∷ rows) m = indexed rows (insert (fold name) (name, a) m)

    -- The rows that no name has taken.
    unfoldable pub add_rest :
        List (String × (String × AggregateRow C))
        → List (String × StatsSections C)
        → List (String × StatsSections C)
    add_rest [] out = out
    add_rest ((key, (name, a)) ∷ rest) out = add_rest rest (insert name (sections_of a) out)

    -- The names in turn: each takes the row of its folded name, or is zeroed.
    unfoldable pub add_names :
        List String
        → List (String × (String × AggregateRow C))
        → List (String × StatsSections C)
        → List (String × StatsSections C)
    add_names [] rows out = add_rest rows out
    add_names (n ∷ ns) rows out = elim (lookup (fold n) rows) [
      | none ↦ add_names ns rows (insert n zeroed out)
      | some r ↦ add_names ns (remove (fold n) rows) (insert n (sections_of r.1) out)
    ]

    unfoldable pub entries_by_name :
        List String → List (String × AggregateRow C) → List (String × StatsSections C)
    entries_by_name names rows = add_names names (indexed rows []) []

  abbrev pub groups_by : String → Option String → Bool
  groups_by what none = false
  groups_by what (some g) = str_eq g what

  -- `group_by`, where it is given, is "model" or "tier".
  check_group_by : String → Result (Unit {0})
  check_group_by g =
      if not (str_eq g "model") && not (str_eq g "tier")
      then err (bad_request "Invalid group_by value. Supported: 'model', 'tier'")
      else ok tt

  module _ (sq : Functions C) (lower to_lowercase : String → String)
      (order visit : List String → List String) (providers : List ProviderConfig) where
    -- The answer, once all is valid; the grouping by model has no filter by model.
    unfoldable pub stats_response : Filters → Option String → Table C → StatsResponse C
    stats_response f group_by t =
        let row = query_aggregate sq lower f.since f.until f.model f.provider t in
        let none_found = row.total_requests == 0 in
        record {
          since = f.since;
          until = f.until;
          empty = if none_found then some true else none;
          message =
              if none_found then some "No requests found in the specified time range" else none;
          sections = sections_of row;
          models =
              if groups_by "model" group_by
              then some (
                  entries_by_name to_lowercase (visit (distinct (all_models providers)))
                    (query_grouped_by_model sq lower order f.since f.until f.provider t))
              else none;
          tiers =
              if groups_by "tier" group_by
              then some (
                  entries_by_name (λ s. s) ("local" ∷ "standard" ∷ "frontier" ∷ [])
                    (query_grouped_by_tier sq lower order f.since f.until f.model f.provider t))
              else none;
        }

    module _ (read : String → Read) (to_rfc3339 : ℕ → String) (same : String → String → Bool) where
      stats_filters : StatsQuery → ℕ × ℕ → Filters
      stats_filters q (since, until) = record {
        since = to_rfc3339 since;
        until = to_rfc3339 until;
        model = q.model;
        provider = q.provider;
        success = none;
        streaming = none;
      }

      -- `stats_handler`, at a time, with the table of the read database if there is one.
      unfoldable pub stats_handler : ℕ → Option (Table C) → StatsQuery → Result (StatsResponse C)
      unfolding stats_filters check_group_by
      stats_handler now none q = err (internal "Database not available")
      stats_handler now (some t) q = do
        range ← resolve_time_range read now q.range q.since q.until
        model_known ← optional (validate_model_filter same lower providers (some t)) q.model
        provider_known ←
            optional (validate_provider_filter same lower providers (some t)) q.provider
        grouping ← optional check_group_by q.group_by
        ok (stats_response (stats_filters q range) q.group_by t)
