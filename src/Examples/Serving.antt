-- ===== src/Examples/Serving.antt =====
-- Runs of the retries, of the vault's calls, of the stream observer and of the streaming task.
use arbstr.Prelude.{
  ℕ, zero, suc, ◌+◌, ◌*◌, ◌/◌, ◌≤◌, ◌≡◌, refl, ◌⊎◌, true, false, none, some, String, List, [], ◌∷◌,
  ◌++◌, arith, length,
}
use arbstr.Retry.Attempts
use arbstr.Retry.Attempts.{CandidateInfo, Outcome, retry_with_fallback, ended}
use arbstr.Retry.Laws.{walk, upto, full_trace, fallback_of, retry_with_fallback-walk}
use arbstr.Vault.Client
use arbstr.Vault.Client.{Answer, call_with_retry}
use arbstr.Vault.Calls.{Ends, call_with_retry-Ends}
use arbstr.Router.Cost.{F64}
use arbstr.Router.Types.{SelectedProvider, standard}
use arbstr.Sse.Json.{Json, Utf8}
use arbstr.Sse.Observer.{
  buffer_cap, ascii, new, process_chunk, process_chunks, process_lines, into_result, position,
  line_end, take_line, process_line, process_data, flush_buffer, trim_end, build_result,
}
use arbstr.Sse.Bytes.{has_newline}
use arbstr.Sse.Chunks.{joined, chunking-irrelevant, process_chunk-bounded}
use arbstr.Handlers.Streaming.{Item, chunk, stream_task}
use arbstr.Handlers.Streaming
use arbstr.Handlers.Trailing.{EventWriter, build_trailing_sse_event, client_body}
use arbstr.Handlers.TrailingLaws.{split_lines, client_body-lines}
use arbstr.Handlers.StreamingLaws.{chunks_of, release_of, stream_task-reads_nothing}

abbrev alpha : CandidateInfo
alpha = record { name = "alpha" }

abbrev beta : CandidateInfo
beta = record { name = "beta" }

-- Errors are their status codes: the primary answers 503 each time, the fallback succeeds.
abbrev send : ℕ → CandidateInfo → Outcome ℕ ℕ
send (suc (suc (suc n))) c = Attempts.ok 7
send _ c = Attempts.err 503

retry_with_fallback-walk_example :
    let v = walk (λ s. s) send 0 alpha (alpha ∷ alpha ∷ fallback_of (beta ∷ [])) [] in
    retry_with_fallback (λ s. s) send (alpha ∷ beta ∷ []) []
    ≡ ended v.0 v.1 (upto v.2 (full_trace alpha (beta ∷ [])))
retry_with_fallback-walk_example = retry_with_fallback-walk (λ s. s) send alpha (beta ∷ []) []

abbrev pub digits : ℕ → String
digits n = "503"

-- The vault answers 503 once, and then settles.
abbrev post : ℕ → Answer ℕ
post zero = Client.responded 503 (Client.unparsed "") "busy"
post (suc n) = Client.responded 200 (Client.parsed 1) ""

call_with_retry-Ends_example :
    let (r, delays, sent) = call_with_retry digits post in
    Ends digits post r sent
    × ((sent ≡ 1) × (delays ≡ [])
        ⊎ ((sent ≡ 2) × (delays ≡ 200 ∷ []) ⊎ ((sent ≡ 3) × (delays ≡ 200 ∷ 400 ∷ []))))
call_with_retry-Ends_example = call_with_retry-Ends digits post

-- Bodies as numbers that hold no fields.
abbrev pub plain_json : Json
plain_json = record {
  Value = ℕ;
  from_str = λ s. none;
  get = λ k v. none;
  get_index = λ i v. none;
  as_str = λ v. none;
  as_u64 = λ v. some v;
  is_null = λ v. false;
}

abbrev pub plain_utf8 : Utf8
plain_utf8 = record { is_utf8 = λ s. true; trim = λ s. s }

done_in_one :
    into_result plain_json plain_utf8
      (process_chunks plain_json plain_utf8 (ascii "data: [DONE]" ∷ []) new)
    ≡ record { usage = none; finish_reason = none; done_received = true }
unfolding into_result process_chunks process_chunk process_lines position flush_buffer trim_end
    line_end take_line process_line process_data build_result new
done_in_one = refl

chunking-irrelevant_example :
    into_result plain_json plain_utf8
      (process_chunks plain_json plain_utf8 (ascii "data: [DO" ∷ (ascii "NE]" ++ 10 ∷ []) ∷ []) new)
    ≡ into_result plain_json plain_utf8
        (process_chunks plain_json plain_utf8 ((ascii "data: [DONE]" ++ 10 ∷ []) ∷ []) new)
unfolding new process_chunk process_lines position
chunking-irrelevant_example =
    chunking-irrelevant plain_json plain_utf8 (ascii "data: [DO" ∷ (ascii "NE]" ++ 10 ∷ []) ∷ [])
      ((ascii "data: [DONE]" ++ 10 ∷ []) ∷ []) refl (omega arith) (omega arith)

process_chunk-bounded_example :
    (length (process_chunk plain_json plain_utf8 (ascii "data: x") new).buffer ≤ buffer_cap)
    × (has_newline (process_chunk plain_json plain_utf8 (ascii "data: x") new).buffer ≡ false)
process_chunk-bounded_example = process_chunk-bounded plain_json plain_utf8 (ascii "data: x") new

-- Whole numbers in place of floats.
abbrev pub whole : F64
whole = record {
  Carrier = ℕ;
  from_u64 = λ n. n;
  add = λ a b. a + b;
  mul = λ a b. a * b;
  div = λ a b. a / b;
  to_u64 = λ n. n;
}

abbrev pub upstream : SelectedProvider
upstream = record {
  name = "alpha";
  url = "https://example.com/v1";
  api_key = none;
  input_rate = 5;
  output_rate = 15;
  base_fee = 0;
  tier = standard;
}

abbrev pub full_stream : List Item
full_stream = chunk (ascii "data: [DONE]" ++ 10 ∷ []) ∷ []

stream_task-reads_nothing_example :
    let e = stream_task plain_json plain_utf8 whole (λ n. true) full_stream upstream (some "r1") in
    (e.row ≡ record {
      input_tokens = none;
      output_tokens = none;
      cost_sats = none;
      success = false;
      error_message = some "stream_incomplete";
    })
    × (e.billing ≡ release_of (some "r1"))
    × (e.handle
        ≡ some (
            into_result plain_json plain_utf8
              (process_chunks plain_json plain_utf8 (chunks_of full_stream) new)))
stream_task-reads_nothing_example =
    stream_task-reads_nothing plain_json plain_utf8 whole (λ n. true) full_stream upstream
      (some "r1")

-- A stream that ends without a newline, as the observer allows.
abbrev open_ended : List Item
open_ended = chunk (ascii "data: [DONE]") ∷ []

abbrev braces : EventWriter ℕ
braces = record { is_number = λ c. true; to_string = λ m. some (ascii "{}") }

-- The client's copy of the end marker is joined to the event.
joined_end :
    split_lines (
      joined (
        chunks_of (
          client_body plain_json plain_utf8 whole braces
            (λ n. true)
            open_ended
            upstream
            40
            none
            none)))
    ≡ (ascii "data: [DONE]data: {}" ∷ [] ∷ ascii "data: [DONE]" ∷ [] ∷ [], [])
unfolding split_lines client_body build_trailing_sse_event Streaming.forward Streaming.complete
joined_end = refl

client_body-lines_example :
    let body =
      client_body plain_json plain_utf8 whole braces (λ n. true) open_ended upstream 40 none none in
    let (ls, unfinished) = split_lines (joined (chunks_of open_ended)) in
    (body ≡ open_ended ++ chunk (build_trailing_sse_event braces none 40 none none) ∷ [])
    × (split_lines (joined (chunks_of body)) ≡ (
      ls ++ (unfinished ++ (ascii "data: " ++ ascii "{}")) ∷ [] ∷ ascii "data: [DONE]" ∷ [] ∷ [],
      [],
    ))
client_body-lines_example =
    client_body-lines plain_json plain_utf8 whole braces open_ended upstream 40 none none
      (ascii "{}") refl refl
