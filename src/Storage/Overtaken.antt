-- ===== src/Storage/Overtaken.antt =====
-- src/storage/writer.rs and src/storage/logging.rs: a stream's completion that overtakes its row.
use arbstr.Prelude.{◌≡◌, refl, ap, true, false, some, none, String, [], ◌∷◌, ◌++◌, All, str_eq_refl}
use arbstr.Storage.Logging.{RequestLog}
use arbstr.Storage.Table.{
  Stored, Table, StreamCompletion, insert_log, is_for, update_where, update_stream_completion,
}
use arbstr.Storage.Writer.{insert, completion, execute}
use arbstr.Storage.WriterLaws.{execute_all}

module _ {C : Type 0} where
  -- No row has the correlation id.
  abbrev pub Absent : String → Table C → Type 0
  Absent cid t = All (λ r. is_for cid r ≡ false) t

  update-Absent :
      (cid : String) (f : Stored C → Stored C) (t : Table C)
      → Absent cid t
      → update_where cid f t ≡ t
  update-Absent cid f [] a = refl
  update-Absent cid f (r ∷ t) a = rw (a.0, update-Absent cid f t a.1) refl

  update_last :
      (cid : String) (f : Stored C → Stored C) (t : Table C) (r : Stored C)
      → Absent cid t
      → is_for cid r ≡ true
      → update_where cid f (t ++ r ∷ []) ≡ t ++ f r ∷ []
  update_last cid f [] r a h = rw h refl
  update_last cid f (x ∷ t) r a h = rw (a.0, update_last cid f t r a.1 h) refl

  -- The row of a request, as the insertion and then the completion leave it.
  abbrev pub completed : RequestLog C → StreamCompletion C → Stored C
  completed log s = record {
    log = record log {
      input_tokens = s.input_tokens;
      output_tokens = s.output_tokens;
      cost_sats = s.cost_sats;
      success = s.success;
      error_message = s.error_message;
      complexity_score = s.complexity_score;
      tier = s.tier;
    };
    stream_duration_ms = some s.stream_duration_ms;
  }

  -- For a request without a row so far, with every statement succeeding: if its row is queued before
  -- the completion of its stream, then the row ends with the completion's values; if the completion
  -- is queued first, it changes nothing and is lost, and the row stays as it was inserted.
  pub completion_order :
      (log : RequestLog C) (s : StreamCompletion C) (t : Table C)
      → Absent log.correlation_id t
      → (execute_all 0 (λ n. true) 0 (insert log ∷ completion log.correlation_id s ∷ []) t
          ≡ t ++ completed log s ∷ [])
        × (execute_all 0 (λ n. true) 0 (completion log.correlation_id s ∷ insert log ∷ []) t
            ≡ t ++ record { log = log; stream_duration_ms = none } ∷ [])
  unfolding execute insert_log update_stream_completion
  completion_order log s t a = (
    update_last log.correlation_id _ t _ a (str_eq_refl log.correlation_id),
    ap (λ u. u ++ record { log = log; stream_duration_ms = none } ∷ [])
        (update-Absent log.correlation_id _ t a),
  )
