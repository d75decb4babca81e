-- ===== src/Storage/Table.antt =====
-- src/storage/logging.rs: the statements on the table `requests`, as the list of its rows in the order
-- of insertion. The counters are stored as `i64`, which holds every `u32`.
use arbstr.Prelude.{
  ℕ, Bool, Option, none, some, String, List, [], ◌∷◌, ◌++◌, map, filter, length, str_eq,
  if◌then◌else◌,
}
use arbstr.Storage.Logging.{RequestLog}

-- A row: what was inserted, with the column that only an update fills.
pub record Stored (C : Type 0) : Type 0 where
  pub log : RequestLog C
  pub stream_duration_ms : Option ℕ

abbrev pub Table : Type 0 → Type 0
Table C = List (Stored C)

-- `UpdateStreamCompletion`, less its correlation id.
pub record StreamCompletion (C : Type 0) : Type 0 where
  pub input_tokens : Option ℕ
  pub output_tokens : Option ℕ
  pub cost_sats : Option C
  pub stream_duration_ms : ℕ
  pub success : Bool
  pub error_message : Option String
  pub complexity_score : Option C
  pub tier : Option String

module _ {C : Type 0} where
  -- `RequestLog::insert`.
  unfoldable pub insert_log : RequestLog C → Table C → Table C
  insert_log log t = t ++ record { log = log; stream_duration_ms = none } ∷ []

  -- `UPDATE ... WHERE correlation_id = ?`, and the number of rows affected.
  abbrev pub is_for : String → Stored C → Bool
  is_for cid r = str_eq r.log.correlation_id cid

  abbrev pub update_where : String → (Stored C → Stored C) → Table C → Table C
  update_where cid f t = map (λ r. if is_for cid r then f r else r) t

  abbrev pub affected : String → Table C → ℕ
  affected cid t = length (filter (is_for cid) t)

  unfoldable pub update_usage : String → Option ℕ → Option ℕ → Option C → Table C → Table C × ℕ
  update_usage cid input_tokens output_tokens cost_sats t = (
    update_where cid
        (λ r. record r {
          log = record r.log {
            input_tokens = input_tokens;
            output_tokens = output_tokens;
            cost_sats = cost_sats;
          };
        })
        t,
    affected cid t,
  )

  unfoldable pub update_stream_completion : String → StreamCompletion C → Table C → Table C × ℕ
  update_stream_completion cid s t = (
    update_where cid
        (λ r. record {
          log = record r.log {
            input_tokens = s.input_tokens;
            output_tokens = s.output_tokens;
            cost_sats = s.cost_sats;
            success = s.success;
            error_message = s.error_message;
            complexity_score = s.complexity_score;
            tier = s.tier;
          };
          stream_duration_ms = some s.stream_duration_ms;
        })
        t,
    affected cid t,
  )
