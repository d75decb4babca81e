-- ===== src/Vault/LoopEnd.antt =====
-- src/proxy/vault.rs: what is left of the settlements that the reconciliation loop started with.
use arbstr.Prelude.{
  ℕ, suc, ◌+◌, ◌≤◌, ◌≡◌, refl, Bool, true, false, Option, String, List, [], ◌∷◌, ◌++◌, All,
  All-mono, arith,
}
use native.Mathlib.Decide.{dec_lt}
use arbstr.Vault.Client.{Answer}
use arbstr.Vault.Pending.{Row, Request, max_settlement_attempts}
use arbstr.Vault.Reconcile.{Distinct}
use arbstr.Vault.Loop.{
  ticks, cancels, Round, LoopState, pass, after_wake, rounds_from, reconciliation_loop,
}
use arbstr.Vault.LoopLaws.{
  Below, RoundsRise, next_id, next_id-le, Aged, passes_made, cancelled, all_works, IsKept,
  pass-IsKept, stored-IsKept,
}

module _ (show : ℕ → String) {V : Type 0} (bad_metadata : String → Option String)
    (bad_response : V → Option String) (post : ℕ → ℕ → Request → ℕ → Answer V) (threshold : ℕ) where
  -- How the rounds end.
  Ends : ℕ → ℕ → List Round → LoopState → Type 0
  Ends bound m rounds s =
      All (Aged bound (m + passes_made rounds)) s.table × (s.ended ≡ cancelled rounds)

  rounds-Ends :
      (rounds : List Round) (n bound k m : ℕ) (s : LoopState)
      → bound ≤ k
      → s.ended ≡ false
      → IsKept show bad_metadata bad_response post threshold bound k m s.table
      → RoundsRise k rounds
      → Ends bound m rounds
          (rounds_from show bad_metadata bad_response post all_works threshold n rounds s)
  unfolding rounds_from after_wake Ends pass
  rounds-Ends [] n bound k m s le running h rise =
      (All-mono _ _ s.table (λ r a lt. omega (arith, a lt)) h.aged, running)
  rounds-Ends (r ∷ more) n bound k m s le running h rise =
      let s' : LoopState = record s { table = s.table ++ r.stored } in
      let t = pass show bad_metadata bad_response post all_works threshold n s' in
      let kept =
        pass-IsKept show bad_metadata bad_response post threshold n bound (next_id k r.stored) m s'
          (stored-IsKept show bad_metadata bad_response post threshold bound k m s.table r.stored le
            h rise.0) in
      let rest : LoopState → LoopState =
        λ u. rounds_from show bad_metadata bad_response post all_works threshold (suc n) more u in
      elim r.wake
        as (λ w.
          All (Aged bound (m + suc (elim w [ ticks ↦ passes_made more | cancels ↦ 0 ])))
            (after_wake show bad_metadata bad_response post all_works threshold w rest t).table
          × ((after_wake show bad_metadata bad_response post all_works threshold w rest t).ended
              ≡ (elim w [ ticks ↦ cancelled more | cancels ↦ true ]))) [
                | ticks ↦
                    let ends =
                      rounds-Ends more (suc n) bound (next_id k r.stored) (suc m) t
                        (omega (arith, next_id-le k r.stored rise.0)) running kept rise.1 in
                    (All-mono _ _ (rest t).table (λ q a lt. omega (arith, a lt)) ends.0, ends.1)
                | cancels ↦ (All-mono _ _ t.table (λ q a lt. omega (arith, a lt)) kept.aged, refl)
              ]

  first_Aged : (bound : ℕ) (rows : List Row) → All (Aged bound 0) rows
  first_Aged bound [] = tt
  first_Aged bound (r ∷ rs) = (λ lt. omega arith, first_Aged bound rs)

  -- If every statement on the database succeeds, and the ids of rows grow, those of rows that are
  -- stored between the passes included: once ten rounds or more have made their passes, no row is
  -- left of those that the loop started with, whatever the vault answers and whatever is stored
  -- meanwhile; and the loop has ended exactly if some round was the cancellation.
  pub reconciliation_loop-clears :
      (bound : ℕ) (rounds : List Round) (flag : Bool) (table : List Row)
      → Distinct table
      → Below bound table
      → RoundsRise bound rounds
      → let s =
          reconciliation_loop show bad_metadata bad_response post all_works threshold rounds flag
            table in
        (max_settlement_attempts ≤ passes_made rounds → All (λ r. bound ≤ r.id) s.table)
        × (s.ended ≡ cancelled rounds)
  unfolding reconciliation_loop Ends pass
  reconciliation_loop-clears bound rounds flag table d b rise =
      let start : LoopState = record { backpressure = flag; table = table; ended = false } in
      let kept =
        pass-IsKept show bad_metadata bad_response post threshold 0 bound bound 0 start
          (record { distinct = d; below = b; aged = first_Aged bound table }) in
      let ends =
        rounds-Ends rounds 1 bound bound 1
          (pass show bad_metadata bad_response post all_works threshold 0 start) (omega arith) refl
          kept rise in
      (
        λ enough.
            All-mono (Aged bound (1 + passes_made rounds)) (λ r. bound ≤ r.id) _
              (λ r a. elim (dec_lt r.id bound) [
                | yes lt ↦ absurd (let old = a lt in omega arith)
                | no ge ↦ omega arith
              ])
              ends.0,
        ends.1,
      )
