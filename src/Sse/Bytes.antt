-- ===== src/Sse/Bytes.antt =====
-- src/proxy/stream.rs: lines in a buffer of bytes, and the observer fed one byte at a time.
use arbstr.Prelude.{
  ℕ, zero, suc, ◌-◌, ◌≤◌, ◌<◌, ◌==◌, ◌≡◌, refl, ap, Bool, false, none, some, List, [], ◌∷◌, ◌++◌,
  arith, length, any, if◌then◌else◌,
}
use arbstr.Sse.Observer.{position, take, drop, line_end}

-- Whether a newline is among the bytes.
abbrev pub has_newline : List ℕ → Bool
has_newline = any (λ b. b == 10)

-- The line without a `\r` at its end.
abbrev pub strip_cr : List ℕ → List ℕ
strip_cr [] = []
strip_cr (x ∷ []) = if x == 13 then [] else x ∷ []
strip_cr (x ∷ y ∷ ys) = x ∷ strip_cr (y ∷ ys)

pub position-none : (xs : List ℕ) → position xs ≡ none → has_newline xs ≡ false
unfolding position
position-none [] h = refl
position-none (x ∷ xs) h = ground (arith, position-none xs)

position_zero : (x : ℕ) (xs : List ℕ) → position (x ∷ xs) ≡ some 0 → x ≡ 10
unfolding position
position_zero x xs h = ground arith

-- A buffer with a newline, taken apart at the first one.
pub position-some :
    (xs : List ℕ) (p : ℕ)
    → position xs ≡ some p
    → (xs ≡ take p xs ++ 10 ∷ drop (suc p) xs)
      × (has_newline (take p xs) ≡ false)
      × (p < length xs)
      × (length (drop (suc p) xs) < length xs)
unfolding position
position-some [] p h = absurd (ground arith)
position-some (x ∷ xs) zero h =
    (ap (λ y. y ∷ xs) (position_zero x xs h), refl, omega arith, omega arith)
position-some (x ∷ xs) (suc p) h = ground (arith, position-some xs p)

line_end-cons :
    (p x : ℕ) (ys : List ℕ) → line_end (x ∷ ys) (suc (suc p)) ≡ suc (line_end ys (suc p))
unfolding line_end
line_end-cons p x ys =
    let e : suc (suc p) - 1 ≡ suc p = omega arith in
    let d : suc p - 1 ≡ p = omega arith in rw (e, d) (ground arith)

pub take-line_end :
    (p : ℕ) (xs : List ℕ) → p ≤ length xs → take (line_end xs p) xs ≡ strip_cr (take p xs)
unfolding line_end
take-line_end zero xs h = ground arith
take-line_end (suc zero) [] h = absurd (omega arith)
take-line_end (suc zero) (x ∷ xs) h = ground arith
take-line_end (suc (suc p)) [] h = absurd (omega arith)
take-line_end (suc (suc p)) (x ∷ []) h = absurd (omega arith)
take-line_end (suc (suc p)) (x ∷ y ∷ xs) h =
    rw (line_end-cons p x (y ∷ xs)) (ap (λ l. x ∷ l) (take-line_end (suc p) (y ∷ xs) (omega arith)))
