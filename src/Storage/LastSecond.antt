-- ===== src/Storage/LastSecond.antt =====
-- src/storage/logs.rs and src/proxy/logs.rs: the end of a time range. A row's time is written to the
-- second with `Z`, as in `...T10:00:00Z`; the range's is written by `to_rfc3339`, as in
-- `...T10:00:00+00:00` or `...T10:00:00.5+00:00`. The query compares the two as texts.
use arbstr.Prelude.{ℕ, ◌<◌, ◌≡◌, refl, ◌&&◌, Bool, true, false, List, [], ◌∷◌, ◌++◌, String, arith}
use arbstr.Sse.Observer.{ascii}
use arbstr.Storage.Table.{Stored}
use arbstr.Storage.Query.{text_le, Filters, matches}

text_le-same :
    (p : List ℕ) (x y : ℕ) (s t : List ℕ) → y < x → text_le (p ++ x ∷ s) (p ++ y ∷ t) ≡ false
unfolding text_le
text_le-same [] x y s t h = ground arith
text_le-same (c ∷ p) x y s t h = ground (arith, text_le-same p x y s t h)

and_false : (b : Bool) → b && false ≡ false
and_false true = refl
and_false false = refl

module _ {C : Type 0} (lower : String → String) where
  -- A row of the very second in which the range ends is not found, whatever else the filters say:
  -- the row's time is the second `p` with a `Z` (byte 90), and the end of the range is that second
  -- followed by a smaller byte, as the `+` or the `.` that `to_rfc3339` writes.
  pub last_second-lost :
      (f : Filters) (r : Stored C) (p : List ℕ) (c : ℕ) (zone : List ℕ)
      → c < 90
      → ascii r.log.timestamp ≡ p ++ 90 ∷ []
      → ascii f.until ≡ p ++ c ∷ zone
      → matches lower f r ≡ false
  unfolding matches
  last_second-lost f r p c zone h row end =
      let late : text_le (ascii r.log.timestamp) (ascii f.until) ≡ false =
        rw (row, end) (text_le-same p 90 c [] zone h) in
      rw late (and_false (text_le (ascii f.since) (ascii r.log.timestamp)))
