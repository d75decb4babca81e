-- ===== src/Handlers/TrailingLaws.antt =====
-- src/proxy/handlers.rs: the lines of a streamed answer as its client receives them.
use arbstr.Prelude.{
  ℕ, ◌==◌, ◌≡◌, refl, sym, ap, ◌∙◌, ◌++◌, true, false, Option, none, some, String, List, [], ◌∷◌,
  if◌then◌else◌, arith, inl, inr, Bool-cases,
}
use mathlib.Core.List.{append_assoc, append-nil}
use arbstr.Router.Types.{SelectedProvider}
use arbstr.Router.Cost.{F64}
use arbstr.Sse.Json.{Json, Utf8}
use arbstr.Sse.Observer.{ascii}
use arbstr.Sse.Bytes.{has_newline}
use arbstr.Sse.Chunks.{joined}
use arbstr.Handlers.Streaming.{
  Item, chunk, broken, Forward, started, wrap_sse_stream, take_result, forward, complete,
}
use arbstr.Handlers.StreamingLaws.{chunks_of, task_reads}
use arbstr.Handlers.Trailing.{EventWriter, number_of, build_trailing_sse_event, client_body}

-- Bytes as lines: those that a newline ends, and what comes after the last newline.
abbrev pub Lines : Type 0
Lines = List (List ℕ) × List ℕ

-- Bytes without a newline, before the lines.
abbrev pub prepend : List ℕ → Lines → Lines
prepend u ([], rest) = ([], u ++ rest)
prepend u (l ∷ ls, rest) = ((u ++ l) ∷ ls, rest)

unfoldable pub split_lines : List ℕ → Lines
split_lines [] = ([], [])
split_lines (b ∷ bs) =
    let (ls, rest) = split_lines bs in
    if b == 10 then ([] ∷ ls, rest) else prepend (b ∷ []) (ls, rest)

-- Lines after lines: the unfinished one goes on with the first.
abbrev pub continue : Lines → Lines → Lines
continue (ls, u) more = let (ms, rest) = prepend u more in (ls ++ ms, rest)

prepend-prepend :
    (b : ℕ) (u : List ℕ) (t : Lines) → prepend (b ∷ []) (prepend u t) ≡ prepend (b ∷ u) t
prepend-prepend b u ([], rest) = refl
prepend-prepend b u (l ∷ ls, rest) = refl

continue-prepend :
    (b : ℕ) (s t : Lines) → continue (prepend (b ∷ []) s) t ≡ prepend (b ∷ []) (continue s t)
continue-prepend b ([], u) t = sym (prepend-prepend b u t)
continue-prepend b (l ∷ ls, u) t = refl

prepend_nil : (t : Lines) → prepend [] t ≡ t
prepend_nil ([], rest) = refl
prepend_nil (l ∷ ls, rest) = refl

split_lines-append :
    (xs ys : List ℕ) → split_lines (xs ++ ys) ≡ continue (split_lines xs) (split_lines ys)
unfolding split_lines
split_lines-append [] ys = sym (prepend_nil (split_lines ys))
split_lines-append (b ∷ bs) ys = elim (Bool-cases (b == 10)) [
  | inl e ↦ rw (e, split_lines-append bs ys) refl
  | inr e ↦
      rw (e, split_lines-append bs ys) (sym (continue-prepend b (split_lines bs) (split_lines ys)))
]

split_lines-unfinished : (u : List ℕ) → has_newline u ≡ false → split_lines u ≡ ([], u)
unfolding split_lines
split_lines-unfinished [] h = refl
split_lines-unfinished (b ∷ bs) h = elim (Bool-cases (b == 10)) [
  | inl e ↦ absurd (ground arith)
  | inr e ↦ rw (e, split_lines-unfinished bs (ground arith)) refl
]

-- A text without a newline, and then the end of the event and of the stream.
split_lines-event :
    (u : List ℕ)
    → has_newline u ≡ false
    → split_lines (u ++ 10 ∷ 10 ∷ (ascii "data: [DONE]" ++ 10 ∷ 10 ∷ []))
      ≡ (u ∷ [] ∷ ascii "data: [DONE]" ∷ [] ∷ [], [])
unfolding split_lines
split_lines-event u h =
    split_lines-append u (10 ∷ 10 ∷ (ascii "data: [DONE]" ++ 10 ∷ 10 ∷ []))
    ∙ rw (split_lines-unfinished u h, append-nil u) refl

chunks_of-append :
    (is : List Item) (bytes : List ℕ)
    → joined (chunks_of (is ++ chunk bytes ∷ [])) ≡ joined (chunks_of is) ++ bytes
chunks_of-append [] bytes = append-nil bytes
chunks_of-append (chunk b ∷ is) bytes =
    ap (λ bs. b ++ bs) (chunks_of-append is bytes)
    ∙ sym (append_assoc b (joined (chunks_of is)) bytes)
chunks_of-append (broken e ∷ is) bytes = chunks_of-append is bytes

module _ (j : Json) (t : Utf8) (f : F64) where
  open f use {Carrier}

  -- A client that stays takes every item.
  forward-received :
      (items : List Item) (s : Forward)
      → s.client_connected ≡ true
      → ((forward j t (λ n. true) items s).client_connected ≡ true)
        × ((forward j t (λ n. true) items s).received ≡ s.received ++ items)
  unfolding forward
  forward-received [] s h = (h, sym (append-nil s.received))
  forward-received (i ∷ is) s h =
      let (c, r) = forward-received is _ (rw h refl) in
      (c, r ∙ rw h (append_assoc s.received (i ∷ []) is))

  client_body-items :
      (w : EventWriter Carrier) (items : List Item) (p : SelectedProvider) (latency_ms : ℕ)
      (score : Option Carrier) (tier : Option String)
      → client_body j t f w (λ n. true) items p latency_ms score tier
        ≡ items ++ chunk (build_trailing_sse_event w none latency_ms score tier) ∷ []
  unfolding client_body take_result complete
  client_body-items w items p latency_ms score tier =
      let (c, r) = forward-received items (started wrap_sse_stream) refl in
      rw (task_reads j t f (λ n. true) items, c, r) refl

  -- A client that stays to the end receives the provider's items and then an event whose cost is null,
  -- whatever usage the provider has sent. Where the metadata is written without a newline, the lines
  -- that it receives are the complete lines of the provider's bytes; then one line that joins what
  -- comes after their last newline to the event; an empty line, the end marker, and an empty line.
  pub client_body-lines :
      (w : EventWriter Carrier) (items : List Item) (p : SelectedProvider) (latency_ms : ℕ)
      (score : Option Carrier) (tier : Option String) (payload : List ℕ)
      → w.to_string (record {
        cost_sats = none;
        latency_ms = latency_ms;
        complexity_score = number_of w score;
        tier = tier;
      })
        ≡ some payload
      → has_newline payload ≡ false
      → let body = client_body j t f w (λ n. true) items p latency_ms score tier in
        let (ls, unfinished) = split_lines (joined (chunks_of items)) in
        (body ≡ items ++ chunk (build_trailing_sse_event w none latency_ms score tier) ∷ [])
        × (split_lines (joined (chunks_of body)) ≡ (
          ls ++ (unfinished ++ (ascii "data: " ++ payload)) ∷ [] ∷ ascii "data: [DONE]" ∷ [] ∷ [],
          [],
        ))
  unfolding build_trailing_sse_event
  client_body-lines w items p latency_ms score tier payload written one_line =
      let whole_body = client_body-items w items p latency_ms score tier in
      let event : build_trailing_sse_event w none latency_ms score tier
          ≡ (ascii "data: " ++ payload) ++ 10 ∷ 10 ∷ (ascii "data: [DONE]" ++ 10 ∷ 10 ∷ []) =
        rw written refl in
      (
        whole_body,
        ap (λ b. split_lines (joined (chunks_of b))) whole_body
            ∙ ap split_lines (chunks_of-append items _)
            ∙ split_lines-append (joined (chunks_of items)) _
            ∙ ap (λ e. continue (split_lines (joined (chunks_of items))) (split_lines e)) event
            ∙ ap (λ e. continue (split_lines (joined (chunks_of items))) e)
                (split_lines-event (ascii "data: " ++ payload) one_line),
      )
