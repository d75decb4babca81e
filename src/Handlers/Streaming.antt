-- ===== src/Handlers/Streaming.antt =====
-- src/proxy/handlers.rs and src/proxy/stream.rs: the task that `handle_streaming_response` spawns,
-- with the observed stream of `wrap_sse_stream` that it owns. The upstream's items and whether the
-- client takes the n-th chunk are arguments.
use arbstr.Prelude.{
  ℕ, suc, ◌||◌, ◌&&◌, ◌++◌, Bool, true, false, Option, none, some, String, List, [], ◌∷◌,
  if◌then◌else◌,
}
use arbstr.Router.Types.{SelectedProvider}
use arbstr.Router.Cost.{F64, actual_cost_sats, to_msats}
use arbstr.Sse.Json.{Json, Utf8}
use arbstr.Sse.Observer.{
  SseObserver, StreamUsage, StreamResult, new, process_chunk, into_result, is_some,
}

-- An item of the upstream byte stream.
pub data Item : Type 0 where
  chunk : List ℕ → Item
  broken : String → Item

-- The wrapped stream and its handle: the observer, as long as the stream is not dropped, and what
-- the handle holds.
pub record Observed : Type 0 where
  pub observer : Option SseObserver
  pub handle : Option StreamResult

-- The state of the forward loop, with the number of items that were sent and those that the client
-- took.
pub record Forward : Type 0 where
  pub observed : Observed
  pub client_connected : Bool
  pub sent : ℕ
  pub received : List Item

abbrev pub started : Observed → Forward
started o = record { observed = o; client_connected = true; sent = 0; received = [] }

-- The row of `stream_completion_update`, less its duration, score and tier.
pub record Completion (Cost : Type 0) : Type 0 where
  pub input_tokens : Option ℕ
  pub output_tokens : Option ℕ
  pub cost_sats : Option Cost
  pub success : Bool
  pub error_message : Option String

-- What is asked of the vault for the reservation.
pub data Billing : Type 0 where
  settles : String → ℕ → Billing
  releases : String → String → Billing
  no_billing : Billing

-- `wrap_sse_stream`: a fresh observer, and a handle that holds nothing.
unfoldable pub wrap_sse_stream : Observed
wrap_sse_stream = record { observer = some new; handle = none }

-- The handle's `lock().take()`.
unfoldable pub take_result : Observed → Observed × Option StreamResult
take_result o = (record o { handle = none }, o.handle)

module _ (j : Json) (t : Utf8) where
  observe : List ℕ → Option SseObserver → Option SseObserver
  observe bytes none = none
  observe bytes (some o) = some (process_chunk j t bytes o)

  -- The closure of `stream.map`: the bytes are observed, an error is passed on.
  unfoldable pub pass : Item → Observed → Observed
  unfolding observe
  pass (chunk bytes) o = record o { observer = observe bytes o.observer }
  pass (broken e) o = o

  dropped : Option SseObserver → Option StreamResult → Option StreamResult
  dropped none handle = handle
  dropped (some o) handle = some (into_result j t o)

  -- The stream goes out of scope: `Drop for SseObserver` writes the result to the handle.
  unfoldable pub drop_stream : Observed → Observed
  unfolding dropped
  drop_stream o = record { observer = none; handle = dropped o.observer o.handle }

  -- One round of the forward loop: after the client has gone, items are only consumed.
  unfoldable pub forward_one : (ℕ → Bool) → Item → Forward → Forward
  unfolding pass
  forward_one accepts item s = record {
    observed = pass item s.observed;
    client_connected = if s.client_connected then accepts s.sent else false;
    sent = if s.client_connected then suc s.sent else s.sent;
    received = if s.client_connected && accepts s.sent then s.received ++ item ∷ [] else s.received;
  }

  unfoldable pub forward : (ℕ → Bool) → List Item → Forward → Forward
  unfolding forward_one
  forward accepts [] s = s
  forward accepts (i ∷ is) s = forward accepts is (forward_one accepts i s)

module _ (f : F64) where
  open f use {Carrier}

  costed : SelectedProvider → Option StreamUsage → Option ℕ × Option ℕ × Option Carrier
  costed p none = (none, none, none)
  costed p (some u) = (
    some u.prompt_tokens,
    some u.completion_tokens,
    some (
        actual_cost_sats f u.prompt_tokens u.completion_tokens p.input_rate p.output_rate
          p.base_fee),
  )

  usage_in : Option StreamResult → Option StreamUsage
  usage_in none = none
  usage_in (some r) = r.usage

  -- `(success, error_message)`.
  completion_status : Bool → Option StreamResult → Bool × Option String
  completion_status connected none = (false, some "stream_incomplete")
  completion_status connected (some r) =
      if r.done_received
      then (if connected then (true, none) else (true, some "client_disconnected"))
      else (false, some "stream_incomplete")

  -- The row, from what was read from the handle.
  unfoldable pub complete : SelectedProvider → Bool → Option StreamResult → Completion Carrier
  unfolding costed usage_in completion_status
  complete p connected r =
      let (tokens_in, tokens_out, cost) = costed p (usage_in r) in
      let (ok, message) = completion_status connected r in
      record {
        input_tokens = tokens_in;
        output_tokens = tokens_out;
        cost_sats = cost;
        success = ok;
        error_message = message;
      }

  msats_of : Option Carrier → ℕ
  msats_of none = 0
  msats_of (some c) = to_msats f c

  -- The last step: settle if the stream completed or a cost is known, else release.
  unfoldable pub bill : Option String → Completion Carrier → Billing
  unfolding msats_of
  bill none row = no_billing
  bill (some rid) row =
      if row.success || is_some row.cost_sats
      then settles rid (msats_of row.cost_sats)
      else releases rid "stream_incomplete_no_usage"

-- What the task leaves behind.
pub record Ended (Cost : Type 0) : Type 0 where
  pub row : Completion Cost
  pub billing : Billing
  pub handle : Option StreamResult

module _ (j : Json) (t : Utf8) (f : F64) where
  open f use {Carrier}

  -- The task's body, up to its end, where the pinned stream that it owns is dropped.
  unfoldable pub stream_task :
      (ℕ → Bool) → List Item → SelectedProvider → Option String → Ended Carrier
  stream_task accepts items p reservation_id =
      let s = forward j t accepts items (started wrap_sse_stream) in
      let (observed, result) = take_result s.observed in
      let row = complete f p s.client_connected result in
      record {
        row = row;
        billing = bill f reservation_id row;
        handle = (drop_stream j t observed).handle;
      }
