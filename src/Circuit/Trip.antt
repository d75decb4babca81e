-- ===== src/Circuit/Trip.antt =====
-- src/proxy/circuit_breaker.rs: when a breaker trips, against a description of the outcomes alone.
use arbstr.Prelude.{
  ℕ, zero, suc, ◌<◌, ◌≡◌, refl, sym, ◌∙◌, Bool, true, false, ◌||◌, Option, none, some, List, [],
  ◌∷◌, map, ap, ◌⊎◌, inl, inr, arith,
}
use arbstr.Circuit.Breaker.{
  CircuitState, closed, opened, Inner, LastError, new, record_failure, record_success,
}

-- The outcomes that a closed breaker is told of, each at a time: an error, or none for a success.
abbrev pub Outcome : Type 0
Outcome = ℕ × Option LastError

abbrev pub is_failure : Outcome → Bool
is_failure (_, none) = false
is_failure (_, some _) = true

unfoldable pub settle : Outcome → Inner → Inner
unfolding record_failure record_success
settle (now, none) c = record_success now c
settle (now, some e) c = record_failure now e c

unfoldable pub settle_all : List Outcome → Inner → Inner
settle_all [] c = c
settle_all (o ∷ os) c = settle_all os (settle o c)

abbrev pub is_opened : CircuitState → Bool
is_opened opened = true
is_opened _ = false

-- The description: somewhere three failures follow one another.
abbrev two_lead : List Bool → Bool
two_lead (true ∷ true ∷ _) = true
two_lead _ = false

abbrev pub three_in_a_row : List Bool → Bool
three_in_a_row [] = false
three_in_a_row (false ∷ fs) = three_in_a_row fs
three_in_a_row (true ∷ fs) = two_lead fs || three_in_a_row fs

-- `k` failures before the list.
abbrev after : ℕ → List Bool → List Bool
after zero fs = fs
after (suc k) fs = true ∷ after k fs

settle_opened : (o : Outcome) (c : Inner) → c.state ≡ opened → (settle o c).state ≡ opened
unfolding settle
settle_opened (now, none) c h = h
settle_opened (now, some e) c h = ground arith

stays_opened : (os : List Outcome) (c : Inner) → c.state ≡ opened → (settle_all os c).state ≡ opened
unfolding settle_all
stays_opened [] c h = h
stays_opened (o ∷ os) c h = stays_opened os (settle o c) (settle_opened o c h)

-- A success ends the failures before it.
three-after-false :
    (k : ℕ) (fs : List Bool) → k < 3 → three_in_a_row (after k (false ∷ fs)) ≡ three_in_a_row fs
three-after-false zero fs h = refl
three-after-false (suc zero) fs h = refl
three-after-false (suc (suc zero)) fs h = refl
three-after-false (suc (suc (suc k))) fs h = absurd (omega arith)

three-after_nil : (k : ℕ) → k < 3 → three_in_a_row (after k []) ≡ false
three-after_nil zero h = refl
three-after_nil (suc zero) h = refl
three-after_nil (suc (suc zero)) h = refl
three-after_nil (suc (suc (suc k))) h = absurd (omega arith)

after-true : (k : ℕ) (fs : List Bool) → after k (true ∷ fs) ≡ after (suc k) fs
after-true zero fs = refl
after-true (suc k) fs = ap (λ gs. true ∷ gs) (after-true k fs)

settle_success :
    (now : ℕ) (c : Inner)
    → c.state ≡ closed
    → ((settle (now, none) c).state ≡ closed) × ((settle (now, none) c).failure_count ≡ 0)
unfolding settle
settle_success now c h = (h, refl)

settle_failure :
    (now : ℕ) (e : LastError) (c : Inner)
    → c.state ≡ closed
    → c.failure_count < 2
    → ((settle (now, some e) c).state ≡ closed)
      × ((settle (now, some e) c).failure_count ≡ suc c.failure_count)
unfolding settle
settle_failure now e c h k = (ground arith, ground arith)

settle_third :
    (now : ℕ) (e : LastError) (c : Inner)
    → c.failure_count ≡ 2
    → (settle (now, some e) c).state ≡ opened
unfolding settle
settle_third now e c k = ground arith

lt_cases : (k : ℕ) → k < 3 → (k < 2) ⊎ (k ≡ 2)
lt_cases k h = ground arith

-- From a closed breaker that has counted `k` failures in a row.
settle_all-three :
    (os : List Outcome) (c : Inner) (k : ℕ)
    → c.state ≡ closed
    → c.failure_count ≡ k
    → k < 3
    → is_opened (settle_all os c).state ≡ three_in_a_row (after k (map is_failure os))
unfolding settle_all
settle_all-three [] c k s f h = rw (s, three-after_nil k h)
settle_all-three ((now, none) ∷ os) c k s f h =
    let (s', f') = settle_success now c s in
    settle_all-three os (settle (now, none) c) 0 s' f' (omega arith)
    ∙ sym (three-after-false k (map is_failure os) h)
settle_all-three ((now, some e) ∷ os) c k s f h = elim (lt_cases k h) [
  | inl small ↦
      let (s', f') = settle_failure now e c s (omega arith) in
      settle_all-three os (settle (now, some e) c) (suc k) s' (omega arith) (omega arith)
      ∙ ap three_in_a_row (sym (after-true k (map is_failure os)))
  | inr two ↦
      rw (stays_opened os (settle (now, some e) c) (settle_third now e c (omega arith)), two) refl
]

-- A new breaker that is told of any sequence of outcomes is open afterwards exactly when somewhere
-- in the sequence three failures follow one another.
pub opened-three :
    (os : List Outcome) → is_opened (settle_all os new).state ≡ three_in_a_row (map is_failure os)
unfolding new
opened-three os = settle_all-three os new 0 refl refl (omega arith)
