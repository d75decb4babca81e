-- ===== src/Sse/Chunks.antt =====
-- src/proxy/stream.rs: the observer's result does not depend on how the bytes are cut into chunks.
use mathlib.Core.List.{append_assoc, append-nil}
use arbstr.Prelude.{
  ℕ, zero, suc, ◌+◌, ◌≤◌, ◌<◌, ◌==◌, ◌≡◌, refl, sym, ap, subst, ◌∙◌, inl, inr, false, ◌||◌, List,
  [], ◌∷◌, ◌++◌, arith, length, length-append, if◌then◌else◌, Bool-cases, Option-cases, ltb,
}
use arbstr.Sse.Json.{Json, Utf8}
use arbstr.Sse.Observer.{
  Facts, SseObserver, buffer_cap, position, take, drop, line_end, new, take_line, process_lines,
  process_chunk, process_chunks, into_result,
}
use arbstr.Sse.Bytes.{has_newline, strip_cr, position-none, position-some, take-line_end}

-- All the bytes of a list of chunks.
abbrev pub joined : List (List ℕ) → List ℕ
joined [] = []
joined (c ∷ cs) = c ++ joined cs

module _ (j : Json) (t : Utf8) where
  -- The reference: the observer fed one byte at a time, with no limit on the line.
  feed_byte : ℕ → SseObserver → SseObserver
  feed_byte b o =
      if b == 10
      then record { buffer = []; facts = take_line j t (strip_cr o.buffer) o.facts }
      else record o { buffer = o.buffer ++ b ∷ [] }

  feed : List ℕ → SseObserver → SseObserver
  unfolding feed_byte
  feed [] o = o
  feed (b ∷ bs) o = feed bs (feed_byte b o)

  feed-append : (xs ys : List ℕ) (o : SseObserver) → feed (xs ++ ys) o ≡ feed ys (feed xs o)
  unfolding feed
  feed-append [] ys o = refl
  feed-append (x ∷ xs) ys o = feed-append xs ys (feed_byte x o)

  -- Bytes with no newline are appended to the line.
  feed-line :
      (xs : List ℕ) (o : SseObserver)
      → has_newline xs ≡ false
      → feed xs o ≡ record o { buffer = o.buffer ++ xs }
  unfolding feed
  feed-line [] o h = rw (append-nil o.buffer)
  feed-line (x ∷ xs) o h = elim (Bool-cases (x == 10)) [
    | inl e ↦ absurd (ground arith)
    | inr e ↦
        rw (e, feed_byte)
          (feed-line xs (record o { buffer = o.buffer ++ x ∷ [] }) (ground arith)
            ∙ ap (λ l. record o { buffer = l }) (append_assoc o.buffer (x ∷ []) xs))
  ]

  -- A line with its newline.
  feed-full_line :
      (line rest : List ℕ) (f : Facts)
      → has_newline line ≡ false
      → feed (line ++ 10 ∷ rest) (record { buffer = []; facts = f })
        ≡ feed rest (record { buffer = []; facts = take_line j t (strip_cr line) f })
  unfolding feed
  feed-full_line line rest f h =
      feed-append line (10 ∷ rest) (record { buffer = []; facts = f })
      ∙ ap (feed (10 ∷ rest)) (feed-line line (record { buffer = []; facts = f }) h)

  process_lines-feed :
      (fuel : ℕ) (o : SseObserver)
      → length o.buffer < fuel
      → process_lines j t fuel o ≡ feed o.buffer (record o { buffer = [] })
  unfolding process_lines
  process_lines-feed zero o h = absurd (omega arith)
  process_lines-feed (suc fuel) o h = elim (Option-cases (position o.buffer)) [
    | inl e ↦
        rw (e, process_lines)
          (sym (feed-line o.buffer (record o { buffer = [] }) (position-none o.buffer e)))
    | inr (p, e) ↦
        let (whole, line, inside, shorter) = position-some o.buffer p e in
        let o' : SseObserver = record {
          buffer = drop (suc p) o.buffer;
          facts = take_line j t (take (line_end o.buffer p) o.buffer) o.facts;
        } in
        rw (e, process_lines)
          (process_lines-feed fuel o' (omega arith)
            ∙ ap
                (λ l.
                  feed (drop (suc p) o.buffer)
                    (record { buffer = []; facts = take_line j t l o.facts }))
                (take-line_end p o.buffer (omega arith))
            ∙ sym (feed-full_line (take p o.buffer) (drop (suc p) o.buffer) o.facts line)
            ∙ ap (λ l. feed l (record o { buffer = [] })) (sym whole))
  ]

  has_newline-append :
      (xs ys : List ℕ) → has_newline (xs ++ ys) ≡ (has_newline xs || has_newline ys)
  has_newline-append [] ys = refl
  has_newline-append (x ∷ xs) ys = ground (arith, has_newline-append xs ys)

  -- The line that is being collected holds no newline.
  feed_byte-keeps :
      (b : ℕ) (o : SseObserver)
      → has_newline o.buffer ≡ false
      → has_newline (feed_byte b o).buffer ≡ false
  unfolding feed_byte
  feed_byte-keeps b o h = ground (arith, has_newline-append o.buffer (b ∷ []))

  feed-keeps :
      (xs : List ℕ) (o : SseObserver)
      → has_newline o.buffer ≡ false
      → has_newline (feed xs o).buffer ≡ false
  unfolding feed
  feed-keeps [] o h = h
  feed-keeps (x ∷ xs) o h = feed-keeps xs (feed_byte x o) (feed_byte-keeps x o h)

  -- A chunk that fits beside the line collected so far is taken in as its bytes are.
  process_chunk-feed :
      (bytes : List ℕ) (o : SseObserver)
      → has_newline o.buffer ≡ false
      → length o.buffer + length bytes ≤ buffer_cap
      → process_chunk j t bytes o ≡ feed bytes o
  unfolding process_chunk
  process_chunk-feed bytes o h fits =
      let n = length-append o.buffer bytes in
      let small : ltb buffer_cap (length (o.buffer ++ bytes)) ≡ false = ground (arith, n) in
      rw small (
        process_lines-feed (suc (length (o.buffer ++ bytes)))
          (record o { buffer = o.buffer ++ bytes }) (omega arith)
        ∙ feed-append o.buffer bytes (record o { buffer = [] })
        ∙ ap (feed bytes) (feed-line o.buffer (record o { buffer = [] }) h))

  -- Every chunk fits beside the line collected before it, so the cap is never passed.
  abbrev pub Fits : List (List ℕ) → SseObserver → Type 0
  Fits [] o = Unit
  Fits (c ∷ cs) o = (length o.buffer + length c ≤ buffer_cap) × Fits cs (process_chunk j t c o)

  process_chunks-feed :
      (cs : List (List ℕ)) (o : SseObserver)
      → has_newline o.buffer ≡ false
      → Fits cs o
      → process_chunks j t cs o ≡ feed (joined cs) o
  unfolding process_chunks feed
  process_chunks-feed [] o h fits = refl
  process_chunks-feed (c ∷ cs) o h fits =
      let same = process_chunk-feed c o h fits.0 in
      process_chunks-feed cs (process_chunk j t c o)
        (subst (λ x. has_newline x.buffer ≡ false) (sym same) (feed-keeps c o h)) fits.1
      ∙ ap (feed (joined cs)) same
      ∙ sym (feed-append c (joined cs) o)

  -- Two ways to cut the same bytes into chunks give the same result of the stream, whatever the
  -- bytes are, if in neither a chunk and the unfinished line before it pass the cap together.
  pub chunking-irrelevant :
      (cs ds : List (List ℕ))
      → joined cs ≡ joined ds
      → Fits cs new
      → Fits ds new
      → into_result j t (process_chunks j t cs new) ≡ into_result j t (process_chunks j t ds new)
  unfolding new
  chunking-irrelevant cs ds same fc fd = ap (into_result j t) (
      process_chunks-feed cs new refl fc
      ∙ ap (λ bytes. feed bytes new) same
      ∙ sym (process_chunks-feed ds new refl fd))

  feed_byte-shorter :
      (b : ℕ) (o : SseObserver) → length (feed_byte b o).buffer ≤ suc (length o.buffer)
  unfolding feed_byte
  feed_byte-shorter b o = ground (arith, length-append o.buffer (b ∷ []))

  feed-shorter :
      (xs : List ℕ) (o : SseObserver) → length (feed xs o).buffer ≤ length o.buffer + length xs
  unfolding feed
  feed-shorter [] o = omega arith
  feed-shorter (x ∷ xs) o = omega (arith, feed-shorter xs (feed_byte x o), feed_byte-shorter x o)

  -- After any chunk, in any state, the buffer is at most the cap long, and holds no newline: every
  -- complete line in it has been processed.
  pub process_chunk-bounded :
      (bytes : List ℕ) (o : SseObserver)
      → (length (process_chunk j t bytes o).buffer ≤ buffer_cap)
        × (has_newline (process_chunk j t bytes o).buffer ≡ false)
  unfolding process_chunk
  process_chunk-bounded bytes o = elim (Bool-cases (ltb buffer_cap (length (o.buffer ++ bytes)))) [
    | inl e ↦ rw (e, process_chunk) (omega arith, refl)
    | inr e ↦
        let o' : SseObserver = record o { buffer = o.buffer ++ bytes } in
        rw (e, process_lines-feed (suc (length (o.buffer ++ bytes))) o' (omega arith))
          (
            ground (arith, feed-shorter (o.buffer ++ bytes) (record o { buffer = [] })),
            feed-keeps (o.buffer ++ bytes) (record o { buffer = [] }) refl,
          )
  ]
