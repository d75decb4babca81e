-- ===== src/Handlers/StreamingLaws.antt =====
-- src/proxy/handlers.rs and src/proxy/stream.rs: what the streaming task records.
use arbstr.Prelude.{ℕ, ◌≡◌, refl, Bool, false, Option, none, some, String, List, [], ◌∷◌, arith}
use arbstr.Router.Types.{SelectedProvider}
use arbstr.Router.Cost.{F64}
use arbstr.Sse.Json.{Json, Utf8}
use arbstr.Sse.Observer.{SseObserver, new, into_result, process_chunks}
use arbstr.Handlers.Streaming.{
  Item, chunk, broken, Forward, started, Billing, releases, no_billing, wrap_sse_stream,
  take_result, drop_stream, forward, complete, bill, stream_task,
}

-- The chunks that arrived.
abbrev pub chunks_of : List Item → List (List ℕ)
chunks_of [] = []
chunks_of (chunk bytes ∷ is) = bytes ∷ chunks_of is
chunks_of (broken _ ∷ is) = chunks_of is

-- What is asked of the vault when nothing was read: a release.
abbrev pub release_of : Option String → Billing
release_of none = no_billing
release_of (some rid) = releases rid "stream_incomplete_no_usage"

module _ (j : Json) (t : Utf8) where
  -- The forward loop feeds every chunk to the observer, and does not touch the handle.
  forward-observed :
      (accepts : ℕ → Bool) (items : List Item) (s : Forward) (o : SseObserver)
      → s.observed ≡ record { observer = some o; handle = none }
      → (forward j t accepts items s).observed
        ≡ record { observer = some (process_chunks j t (chunks_of items) o); handle = none }
  unfolding forward process_chunks
  forward-observed accepts [] s o h = h
  forward-observed accepts (chunk bytes ∷ is) s o h = forward-observed accepts is _ _ (ground arith)
  forward-observed accepts (broken e ∷ is) s o h = forward-observed accepts is _ o (ground arith)

module _ (j : Json) (t : Utf8) (f : F64) where
  pub task_reads :
      (accepts : ℕ → Bool) (items : List Item)
      → (forward j t accepts items (started wrap_sse_stream)).observed
        ≡ record { observer = some (process_chunks j t (chunks_of items) new); handle = none }
  unfolding wrap_sse_stream
  task_reads accepts items =
      forward-observed j t accepts items (started (record { observer = some new; handle = none }))
        new refl

  -- Whatever the provider sends, also a stream with usage and its end marker, and whether or not
  -- the client stays: the task reads its handle while it still owns the stream, so it reads nothing.
  -- It records no tokens and no cost, failure, and "stream_incomplete", and it releases the
  -- reservation, if there is one. The result of all the chunks is written to the handle only after.
  pub stream_task-reads_nothing :
      (accepts : ℕ → Bool) (items : List Item) (p : SelectedProvider) (rid : Option String)
      → let e = stream_task j t f accepts items p rid in
        (e.row ≡ record {
          input_tokens = none;
          output_tokens = none;
          cost_sats = none;
          success = false;
          error_message = some "stream_incomplete";
        })
        × (e.billing ≡ release_of rid)
        × (e.handle ≡ some (into_result j t (process_chunks j t (chunks_of items) new)))
  unfolding stream_task take_result complete bill drop_stream
  stream_task-reads_nothing accepts items p none =
      let e = task_reads accepts items in (rw e refl, refl, rw e refl)
  stream_task-reads_nothing accepts items p (some rid) =
      let e = task_reads accepts items in (rw e refl, rw e refl, rw e refl)
