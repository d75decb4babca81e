-- ===== src/Sse/Observer.antt =====
-- src/proxy/stream.rs: `SseObserver` over bytes. A method on `&mut self` returns the new state.
use Prim.Native.Char.{code}
use arbstr.Prelude.{
  ℕ, zero, suc, ◌-◌, ◌*◌, ◌%◌, ◌^◌, ◌==◌, ◌&&◌, ◌||◌, Bool, true, false, Option, none, some, String,
  List, [], ◌∷◌, ◌++◌, if◌then◌else◌, ltb, length, is_empty,
}
use arbstr.Sse.Json.{Json, Utf8}

-- `BUFFER_CAP`, 64 KB.
abbrev pub buffer_cap : ℕ
buffer_cap = 64 * 1024

pub record StreamUsage : Type 0 where
  pub prompt_tokens : ℕ
  pub completion_tokens : ℕ

-- What has been extracted so far.
pub record Facts : Type 0 where
  pub usage : Option StreamUsage
  pub finish_reason : Option String
  pub done_received : Bool

pub record StreamResult : Type 0 where
  pub usage : Option StreamUsage
  pub finish_reason : Option String
  pub done_received : Bool

-- The observer; its handle is modelled where the stream is wrapped.
pub record SseObserver : Type 0 where
  pub buffer : List ℕ
  pub facts : Facts

-- `StreamResult::empty`.
abbrev pub empty_result : StreamResult
empty_result = record { usage = none; finish_reason = none; done_received = false }

abbrev no_facts : Facts
no_facts = record { usage = none; finish_reason = none; done_received = false }

unfoldable pub new : SseObserver
new = record { buffer = []; facts = no_facts }

-- The bytes of an ASCII text.
abbrev pub ascii : String → List ℕ
ascii String.[] = []
ascii (String.◌∷◌ c s) = code c ∷ ascii s

abbrev pub bytes_eq : List ℕ → List ℕ → Bool
bytes_eq [] [] = true
bytes_eq (x ∷ xs) (y ∷ ys) = (x == y) && bytes_eq xs ys
bytes_eq _ _ = false

-- `strip_prefix`.
abbrev pub strip_prefix : List ℕ → List ℕ → Option (List ℕ)
strip_prefix [] line = some line
strip_prefix (x ∷ xs) [] = none
strip_prefix (x ∷ xs) (y ∷ ys) = let rest = strip_prefix xs ys in if x == y then rest else none

abbrev pub is_some {ℓ} : {A : Type ℓ} → Option A → Bool
is_some none = false
is_some (some _) = true

abbrev starts_with : String → List ℕ → Bool
starts_with s line = is_some (strip_prefix (ascii s) line)

abbrev and_then {ℓ κ} : {A : Type ℓ} {B : Type κ} → Option A → (A → Option B) → Option B
and_then none f = none
and_then (some a) f = f a

abbrev or_else {ℓ} : {A : Type ℓ} → Option A → Option A → Option A
or_else none b = b
or_else (some a) b = some a

abbrev after_first : Option ℕ → Option ℕ
after_first none = none
after_first (some p) = some (suc p)

-- `self.buffer.iter().position(|&b| b == b'\n')`.
unfoldable pub position : List ℕ → Option ℕ
position [] = none
position (x ∷ xs) = let rest = after_first (position xs) in if x == 10 then some 0 else rest

abbrev pub take : ℕ → List ℕ → List ℕ
take zero xs = []
take (suc n) [] = []
take (suc n) (x ∷ xs) = x ∷ take n xs

abbrev pub drop : ℕ → List ℕ → List ℕ
drop zero xs = xs
drop (suc n) [] = []
drop (suc n) (x ∷ xs) = drop n xs

-- `buffer[i]`, at an index in range.
abbrev pub byte_at : List ℕ → ℕ → ℕ
byte_at [] i = 0
byte_at (x ∷ xs) zero = x
byte_at (x ∷ xs) (suc i) = byte_at xs i

-- The end of the line before the newline at `pos`, with a `\r` before it trimmed.
unfoldable pub line_end : List ℕ → ℕ → ℕ
line_end buffer pos = if ltb 0 pos && byte_at buffer (pos - 1) == 13 then pos - 1 else pos

module _ (j : Json) (t : Utf8) where
  open j use {Value, from_str, get, get_index, as_str, as_u64, is_null}

  finish_of : Option String → Facts → Facts
  finish_of none f = f
  finish_of (some reason) f = record f { finish_reason = some reason }

  -- `prompt as u32` truncates.
  usage_of : Option ℕ → Option ℕ → Facts → Facts
  usage_of (some p) (some c) f = record f {
    usage = some (record { prompt_tokens = p % 2 ^ 32; completion_tokens = c % 2 ^ 32 });
  }
  usage_of _ _ f = f

  read_usage : Option Value → Facts → Facts
  unfolding usage_of
  read_usage none f = f
  read_usage (some u) f =
      if is_null u
      then f
      else usage_of (and_then (get "prompt_tokens" u) as_u64)
          (and_then (get "completion_tokens" u) as_u64) f

  read_finish : Value → Facts → Facts
  unfolding finish_of
  read_finish v f =
      finish_of
        (and_then (get "choices" v)
          (λ c. and_then (get_index 0 c) (λ choice. and_then (get "finish_reason" choice) as_str)))
        f

  read_value : Option Value → Facts → Facts
  unfolding read_finish read_usage
  read_value none f = f
  read_value (some v) f = read_usage (get "usage" v) (read_finish v f)

  unfoldable pub process_data : List ℕ → Facts → Facts
  unfolding read_value
  process_data payload f =
      let trimmed = t.trim payload in
      if bytes_eq trimmed (ascii "[DONE]")
      then record f { done_received = true }
      else read_value (from_str trimmed) f

  process_payload : Option (List ℕ) → Facts → Facts
  unfolding process_data
  process_payload none f = f
  process_payload (some payload) f = process_data payload f

  unfoldable pub process_line : List ℕ → Facts → Facts
  unfolding process_payload
  process_line line f =
      if is_empty line
      then f
      else if starts_with ":" line
      then f
      else if starts_with "event:" line || (starts_with "id:" line || starts_with "retry:" line)
      then f
      else process_payload
          (or_else (strip_prefix (ascii "data: ") line) (strip_prefix (ascii "data:") line)) f

  -- A line that is no UTF-8 is skipped.
  unfoldable pub take_line : List ℕ → Facts → Facts
  take_line line f = if t.is_utf8 line then process_line line f else f

  -- The `loop` over the complete lines; each round takes a newline out of the buffer, so more
  -- rounds than bytes are enough.
  unfoldable pub process_lines : ℕ → SseObserver → SseObserver
  process_lines zero o = o
  process_lines (suc fuel) o = elim (position o.buffer) [
    | none ↦ o
    | some pos ↦ process_lines fuel (record {
      buffer = drop (suc pos) o.buffer;
      facts = take_line (take (line_end o.buffer pos) o.buffer) o.facts;
    })
  ]

  unfoldable pub process_chunk : List ℕ → SseObserver → SseObserver
  process_chunk bytes o =
      let buffer = o.buffer ++ bytes in
      if ltb buffer_cap (length buffer)
      then record o { buffer = [] }
      else process_lines (suc (length buffer)) (record o { buffer = buffer })

  -- `remaining.last() == Some(&b'\r')` and the slice without it.
  unfoldable pub trim_end : List ℕ → List ℕ
  trim_end line = take (line_end line (length line)) line

  unfoldable pub flush_buffer : SseObserver → SseObserver
  flush_buffer o =
      if is_empty o.buffer
      then o
      else record { buffer = []; facts = take_line (trim_end o.buffer) o.facts }

  -- `build_result`.
  unfoldable pub build_result : SseObserver → StreamResult
  build_result o =
      if o.facts.done_received
      then record {
        usage = o.facts.usage;
        finish_reason = o.facts.finish_reason;
        done_received = true;
      }
      else empty_result

  -- `into_result`, and what `Drop` writes to the handle.
  unfoldable pub into_result : SseObserver → StreamResult
  into_result o = build_result (flush_buffer o)

  unfoldable pub process_chunks : List (List ℕ) → SseObserver → SseObserver
  process_chunks [] o = o
  process_chunks (c ∷ cs) o = process_chunks cs (process_chunk c o)
