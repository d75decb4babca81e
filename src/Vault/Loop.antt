-- ===== src/Vault/Loop.antt =====
-- src/proxy/vault.rs: `reconciliation_loop`. Between two passes other tasks store settlements, and the
-- loop is woken by its ticker or by the cancellation: an explicit list of rounds. What each pass
-- meets in the database and in the vault is an argument, by the number of the pass.
use arbstr.Prelude.{ℕ, suc, Bool, true, false, Option, String, List, [], ◌∷◌, ◌++◌}
use arbstr.Vault.Client.{Answer}
use arbstr.Vault.Pending.{Row, Request, Database, reconcile_once}

-- Which branch of `select!` is taken.
pub data Wake : Type 0 where
  ticks cancels : Wake

-- The rows that were stored since the last pass, and the wake.
pub record Round : Type 0 where
  pub stored : List Row
  pub wake : Wake

-- The flag and the table, and whether the loop has ended.
pub record LoopState : Type 0 where
  pub backpressure : Bool
  pub table : List Row
  pub ended : Bool

-- What the database does in a pass.
pub record PassDatabase : Type 0 where
  pub rows_db : Database
  pub count_ok : Bool
  pub fetch_ok : Bool

module _ (show : ℕ → String) {V : Type 0} (bad_metadata : String → Option String)
    (bad_response : V → Option String) (post : ℕ → ℕ → Request → ℕ → Answer V)
    (db : ℕ → PassDatabase) (threshold : ℕ) where
  unfoldable pub pass : ℕ → LoopState → LoopState
  pass n s =
      let (flag, p) =
        reconcile_once show bad_metadata bad_response (post n) (db n).rows_db (db n).count_ok
          (db n).fetch_ok threshold s.backpressure s.table in
      record { backpressure = flag; table = p.table; ended = s.ended }

  -- The arms of the `select!`, with the rest of the loop.
  unfoldable pub after_wake : Wake → (LoopState → LoopState) → LoopState → LoopState
  after_wake ticks more s = more s
  after_wake cancels more s = record s { ended = true }

  -- The loop, from the `n`-th pass on; after the rounds of the list it still waits, or has ended.
  unfoldable pub rounds_from : ℕ → List Round → LoopState → LoopState
  unfolding after_wake
  rounds_from n [] s = s
  rounds_from n (r ∷ more) s =
      after_wake r.wake (rounds_from (suc n) more)
        (pass n (record s { table = s.table ++ r.stored }))

  unfoldable pub reconciliation_loop : List Round → Bool → List Row → LoopState
  reconciliation_loop rounds flag table =
      rounds_from 1 rounds (pass 0 (record { backpressure = flag; table = table; ended = false }))
