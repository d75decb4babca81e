-- ===== src/Vault/LoopLaws.antt =====
-- src/proxy/vault.rs: what the reconciliation loop does to the settlements that it finds, while others
-- are stored.
use arbstr.Prelude.{
  ℕ, suc, ◌≤◌, ◌<◌, sym, subst, inl, inr, Bool, true, false, Option, String, List, [], ◌∷◌, ◌++◌,
  All, All-mono, arith,
}
use arbstr.Vault.Client.{Answer}
use arbstr.Vault.Pending.{Row, Request, max_settlement_attempts}
use arbstr.Vault.Reconcile.{Fresh, Distinct, Fresh-append, left_of_all, reconcile_once-left}
use arbstr.Vault.Eviction.{working, left_of-cases, Distinct-left}
use arbstr.Vault.Loop.{ticks, cancels, Round, LoopState, PassDatabase, pass}

-- The ids of stored rows grow from a bound on, as those of an `AUTOINCREMENT` key do.
abbrev pub Rising : ℕ → List Row → Type 0
Rising k [] = Unit
Rising k (r ∷ rs) = (k ≤ r.id) × Rising (suc r.id) rs

-- The bound after them.
abbrev pub next_id : ℕ → List Row → ℕ
next_id k [] = k
next_id k (r ∷ rs) = next_id (suc r.id) rs

abbrev pub Below : ℕ → List Row → Type 0
Below k rows = All (λ r. r.id < k) rows

-- The rows of all rounds have ids that grow from a bound on.
abbrev pub RoundsRise : ℕ → List Round → Type 0
RoundsRise k [] = Unit
RoundsRise k (r ∷ more) = Rising k r.stored × RoundsRise (next_id k r.stored) more

pub next_id-le : (k : ℕ) (rows : List Row) → Rising k rows → k ≤ next_id k rows
next_id-le k [] h = omega arith
next_id-le k (r ∷ rs) h = omega (arith, next_id-le (suc r.id) rs h.1)

Rising-weaken : (j k : ℕ) (rows : List Row) → j ≤ k → Rising k rows → Rising j rows
Rising-weaken j k [] le h = tt
Rising-weaken j k (r ∷ rs) le h = (omega arith, h.1)

Rising-Fresh : (id k : ℕ) (rows : List Row) → id < k → Rising k rows → Fresh id rows
Rising-Fresh id k [] lt h = tt
Rising-Fresh id k (r ∷ rs) lt h = (ground arith, Rising-Fresh id (suc r.id) rs (omega arith) h.1)

Rising-Distinct : (k : ℕ) (rows : List Row) → Rising k rows → Distinct rows
Rising-Distinct k [] h = tt
Rising-Distinct k (r ∷ rs) h =
    (Rising-Fresh r.id (suc r.id) rs (omega arith) h.1, Rising-Distinct (suc r.id) rs h.1)

Distinct-append :
    (k : ℕ) (xs ys : List Row) → Distinct xs → Below k xs → Rising k ys → Distinct (xs ++ ys)
Distinct-append k [] ys d b h = Rising-Distinct k ys h
Distinct-append k (x ∷ xs) ys d b h =
    (Fresh-append x.id xs ys d.0 (Rising-Fresh x.id k ys b.0 h), Distinct-append k xs ys d.1 b.1 h)

Rising-Below : (k : ℕ) (rows : List Row) → Rising k rows → Below (next_id k rows) rows
Rising-Below k [] h = tt
Rising-Below k (r ∷ rs) h =
    (omega (arith, next_id-le (suc r.id) rs h.1), Rising-Below (suc r.id) rs h.1)

All-append : (P : Row → Type 0) (xs ys : List Row) → All P xs → All P ys → All P (xs ++ ys)
All-append P [] ys a b = b
All-append P (x ∷ xs) ys a b = (a.0, All-append P xs ys a.1 b)

-- A row from before a bound that has outlived so many passes: it has that many attempts, and fewer
-- passes than eleven were made.
abbrev pub Aged : ℕ → ℕ → Row → Type 0
Aged bound m r = r.id < bound → (m ≤ r.attempts) × (m ≤ max_settlement_attempts)

Rising-Aged :
    (bound k m : ℕ) (rows : List Row) → bound ≤ k → Rising k rows → All (Aged bound m) rows
Rising-Aged bound k m [] le h = tt
Rising-Aged bound k m (r ∷ rs) le h =
    (λ lt. absurd (omega arith), Rising-Aged bound (suc r.id) m rs (omega arith) h.1)

-- The passes that the rounds make: the cancellation makes the last.
abbrev pub passes_made : List Round → ℕ
passes_made [] = 0
passes_made (r ∷ more) =
    let rest = passes_made more in suc (elim r.wake [ ticks ↦ rest | cancels ↦ 0 ])

-- Whether some round is the cancellation.
abbrev pub cancelled : List Round → Bool
cancelled [] = false
cancelled (r ∷ more) = let rest = cancelled more in elim r.wake [ ticks ↦ rest | cancels ↦ true ]

-- Every statement on the database succeeds.
abbrev pub all_works : ℕ → PassDatabase
all_works n = record { rows_db = working; count_ok = true; fetch_ok = true }

module _ (show : ℕ → String) {V : Type 0} (bad_metadata : String → Option String)
    (bad_response : V → Option String) (post : ℕ → ℕ → Request → ℕ → Answer V) (threshold : ℕ) where
  left-Aged :
      (n bound m : ℕ) (rows : List Row)
      → All (Aged bound m) rows
      → All (Aged bound (suc m)) (left_of_all show bad_metadata bad_response (post n) working rows)
  left-Aged n bound m [] a = tt
  left-Aged n bound m (r ∷ rs) a =
      let rest = left_of_all show bad_metadata bad_response (post n) working rs in
      elim (left_of-cases show bad_metadata bad_response (post n) r) [
        | inl e ↦
            subst (λ l. All (Aged bound (suc m)) (l ++ rest)) (sym e) (left-Aged n bound m rs a.1)
        | inr (tried, e) ↦
            subst (λ l. All (Aged bound (suc m)) (l ++ rest)) (sym e)
              (λ lt. let old = a.0 lt in ground (arith, old.0, old.1), left-Aged n bound m rs a.1)
      ]

  left-Below :
      (n k : ℕ) (rows : List Row)
      → Below k rows
      → Below k (left_of_all show bad_metadata bad_response (post n) working rows)
  left-Below n k [] a = tt
  left-Below n k (r ∷ rs) a =
      let rest = left_of_all show bad_metadata bad_response (post n) working rs in
      elim (left_of-cases show bad_metadata bad_response (post n) r) [
        | inl e ↦ subst (λ l. Below k (l ++ rest)) (sym e) (left-Below n k rs a.1)
        | inr (_, e) ↦ subst (λ l. Below k (l ++ rest)) (sym e) (a.0, left-Below n k rs a.1)
      ]

  -- What every pass keeps: the ids are distinct and below a bound, and the rows from before grow old.
  pub record IsKept (bound k m : ℕ) (rows : List Row) : Type 0 where
    pub distinct : Distinct rows
    pub below : Below k rows
    pub aged : All (Aged bound m) rows

  pub pass-IsKept :
      (n bound k m : ℕ) (s : LoopState)
      → IsKept bound k m s.table
      → IsKept bound k
          (suc m)
          (pass show bad_metadata bad_response post all_works threshold n s).table
  unfolding pass
  pass-IsKept n bound k m s h =
      let e = sym (
        (reconcile_once-left show bad_metadata bad_response (post n) working threshold
          s.backpressure s.table h.distinct).1) in
      subst (IsKept bound k (suc m)) e (record {
        distinct = Distinct-left show bad_metadata bad_response (post n) s.table h.distinct;
        below = left-Below n k s.table h.below;
        aged = left-Aged n bound m s.table h.aged;
      })

  pub stored-IsKept :
      (bound k m : ℕ) (rows new : List Row)
      → bound ≤ k
      → IsKept bound k m rows
      → Rising k new
      → IsKept bound (next_id k new) m (rows ++ new)
  stored-IsKept bound k m rows new le h r = record {
    distinct = Distinct-append k rows new h.distinct h.below r;
    below =
        All-append (λ q. q.id < next_id k new) rows new
          (All-mono _ _ rows (λ q lt. omega (arith, next_id-le k new r)) h.below)
          (Rising-Below k new r);
    aged = All-append (Aged bound m) rows new h.aged (Rising-Aged bound k m new le r);
  }
