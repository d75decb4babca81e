-- ===== src/Storage/Writer.antt =====
-- src/storage/writer.rs: `DbWriter`, a bounded channel with one task behind it. The events of the two
-- sides are an explicit sequence. Whether a statement on the database succeeds is an argument, by
-- the number of statements before it.
use arbstr.Prelude.{ℕ, suc, Bool, Option, String, List, [], ◌∷◌, ◌++◌, length, ltb, if◌then◌else◌}
use arbstr.Storage.Logging.{RequestLog}
use arbstr.Storage.Table.{
  Table, StreamCompletion, insert_log, update_usage, update_stream_completion,
}

pub data WriteCommand (C : Type 0) : Type 0 where
  insert : RequestLog C → WriteCommand C
  usage : String → Option ℕ → Option ℕ → Option C → WriteCommand C
  completion : String → StreamCompletion C → WriteCommand C

-- The channel's queue, the table, and the number of statements that were made.
pub record WriterState (C : Type 0) : Type 0 where
  pub queue : List (WriteCommand C)
  pub table : Table C
  pub made : ℕ

-- What happens: a handler queues a command by `log_write`, `usage_update` or
-- `stream_completion_update`, which all `try_send` it; or the task receives one.
pub data WriterEvent (C : Type 0) : Type 0 where
  sends : WriteCommand C → WriterEvent C
  receives : WriterEvent C

module _ {C : Type 0} where
  -- The arms of `writer_loop`; what they log is left out.
  unfoldable pub execute : Bool → WriteCommand C → Table C → Table C
  execute works (insert log) t = if works then insert_log log t else t
  execute works (usage cid i o c) t = if works then (update_usage cid i o c t).0 else t
  execute works (completion cid s) t = if works then (update_stream_completion cid s t).0 else t

  module _ (capacity : ℕ) (works : ℕ → Bool) where
    -- `try_send`: a full channel drops the command.
    unfoldable pub try_send : WriteCommand C → WriterState C → WriterState C
    try_send c w =
        if ltb (length w.queue) capacity then record w { queue = w.queue ++ c ∷ [] } else w

    -- One round of `writer_loop`, on a queue.
    receive : List (WriteCommand C) → WriterState C → WriterState C
    receive [] w = w
    receive (c ∷ cs) w = record {
      queue = cs;
      table = execute (works w.made) c w.table;
      made = suc w.made;
    }

    unfoldable pub writer_step : WriterEvent C → WriterState C → WriterState C
    unfolding receive try_send
    writer_step (sends c) w = try_send c w
    writer_step receives w = receive w.queue w

    unfoldable pub writer_run : List (WriterEvent C) → WriterState C → WriterState C
    writer_run [] w = w
    writer_run (e ∷ es) w = writer_run es (writer_step e w)
