-- ===== src/Vault/Reconcile.antt =====
-- src/proxy/vault.rs: what a reconciliation pass leaves of the stored settlements.
use arbstr.Prelude.{
  ℕ, suc, ◌==◌, ◌≡◌, refl, sym, ap, ◌∙◌, ◌⊎◌, Bool, true, false, Option, none, some, Option-cases,
  String, List, [], ◌∷◌, ◌++◌, leb, length, All, arith, if◌then◌else◌, Bool-cases, inl, inr,
}
use arbstr.Vault.Client.{Answer, VaultError}
use arbstr.Vault.Pending.{
  Row, max_settlement_attempts, delete_pending, increment_attempts, Request, Database, replay_one,
  Pass, after_replay, handle_row, handle_rows, reconcile_once,
}

-- No row has the id.
abbrev pub Fresh : ℕ → List Row → Type 0
Fresh id rows = All (λ r. (r.id == id) ≡ false) rows

-- The ids are distinct, as those of a primary key are.
abbrev pub Distinct : List Row → Type 0
Distinct [] = Unit
Distinct (r ∷ rs) = Fresh r.id rs × Distinct rs

-- No row of the first list has the id of a row of the second.
abbrev Apart : List Row → List Row → Type 0
Apart done rows = All (λ r. Fresh r.id done) rows

append_assoc : (xs ys zs : List Row) → (xs ++ ys) ++ zs ≡ xs ++ (ys ++ zs)
append_assoc [] ys zs = refl
append_assoc (x ∷ xs) ys zs = ap (λ r. x ∷ r) (append_assoc xs ys zs)

pub Fresh-append : (id : ℕ) (xs ys : List Row) → Fresh id xs → Fresh id ys → Fresh id (xs ++ ys)
Fresh-append id [] ys a b = b
Fresh-append id (x ∷ xs) ys a b = (a.0, Fresh-append id xs ys a.1 b)

delete-Fresh : (id : ℕ) (rows : List Row) → Fresh id rows → delete_pending id rows ≡ rows
unfolding delete_pending
delete-Fresh id [] f = refl
delete-Fresh id (r ∷ rs) f = rw (f.0, delete-Fresh id rs f.1) refl

delete_at :
    (done : List Row) (r : Row) (rows : List Row)
    → Fresh r.id done
    → Fresh r.id rows
    → delete_pending r.id (done ++ r ∷ rows) ≡ done ++ rows
unfolding delete_pending
delete_at [] r rows f g =
    let e : (r.id == r.id) ≡ true = ground arith in rw e (delete-Fresh r.id rows g)
delete_at (d ∷ ds) r rows f g = rw (f.0, delete_at ds r rows f.1 g) refl

increment-Fresh : (id : ℕ) (rows : List Row) → Fresh id rows → increment_attempts id rows ≡ rows
unfolding increment_attempts
increment-Fresh id [] f = refl
increment-Fresh id (r ∷ rs) f = rw (f.0, increment-Fresh id rs f.1) refl

increment_at :
    (done : List Row) (r : Row) (rows : List Row)
    → Fresh r.id done
    → Fresh r.id rows
    → increment_attempts r.id (done ++ r ∷ rows)
      ≡ done ++ record r { attempts = suc r.attempts } ∷ rows
unfolding increment_attempts
increment_at [] r rows f g =
    let e : (r.id == r.id) ≡ true = ground arith in
    rw e (ap (λ rs. record r { attempts = suc r.attempts } ∷ rs) (increment-Fresh r.id rows g))
increment_at (d ∷ ds) r rows f g = rw (f.0, increment_at ds r rows f.1 g) refl

module _ (show : ℕ → String) {V : Type 0} (bad_metadata : String → Option String)
    (bad_response : V → Option String) (post : ℕ → Request → ℕ → Answer V) (db : Database) where
  -- What is left of a row whose replay ended so.
  abbrev pub replay_left : Row → Option VaultError → List Row
  replay_left r none = if db.delete_ok r.id then [] else r ∷ []
  replay_left r (some e) =
      if db.increment_ok r.id then record r { attempts = suc r.attempts } ∷ [] else r ∷ []

  -- What a pass should leave of a row, from the row alone: nothing of one that has had its attempts
  -- or whose replay succeeds, and one more attempt of the rest; or the row as it is, where the
  -- statement fails.
  abbrev pub left_of : Row → List Row
  left_of r =
      if leb max_settlement_attempts r.attempts
      then (if db.delete_ok r.id then [] else r ∷ [])
      else replay_left r (replay_one show bad_metadata bad_response post r.id r.settlement)

  abbrev pub left_of_all : List Row → List Row
  left_of_all [] = []
  left_of_all (r ∷ rs) = left_of r ++ left_of_all rs

  pub left-Fresh : (id : ℕ) (r : Row) → (r.id == id) ≡ false → Fresh id (left_of r)
  left-Fresh id r f = elim (Bool-cases (leb max_settlement_attempts r.attempts)) [
    | inl e ↦ elim (Bool-cases (db.delete_ok r.id)) [
      | inl d ↦ rw (e, d) tt
      | inr d ↦ rw (e, d) (f, tt)
    ]
    | inr e ↦
        elim (Option-cases (replay_one show bad_metadata bad_response post r.id r.settlement)) [
          | inl n ↦ elim (Bool-cases (db.delete_ok r.id)) [
            | inl d ↦ rw (e, n, d) tt
            | inr d ↦ rw (e, n, d) (f, tt)
          ]
          | inr (x, n) ↦ elim (Bool-cases (db.increment_ok r.id)) [
            | inl d ↦ rw (e, n, d) (f, tt)
            | inr d ↦ rw (e, n, d) (f, tt)
          ]
        ]
  ]

  RowDeleted : (r : Row) (p : Pass) → Pass → Type 0
  RowDeleted r p q = (left_of r ≡ []) × (q.table ≡ delete_pending r.id p.table)

  RowKept : (r : Row) (p : Pass) → Pass → Type 0
  RowKept r p q = (left_of r ≡ r ∷ []) × (q.table ≡ p.table)

  RowCounted : (r : Row) (p : Pass) → Pass → Type 0
  RowCounted r p q =
      (left_of r ≡ record r { attempts = suc r.attempts } ∷ [])
      × (q.table ≡ increment_attempts r.id p.table)

  -- A round of the loop deletes the row, keeps it, or counts an attempt.
  handle_row-cases :
      (r : Row) (p : Pass)
      → let q = handle_row show bad_metadata bad_response post db r p in
        RowDeleted r p q ⊎ (RowKept r p q ⊎ RowCounted r p q)
  unfolding handle_row after_replay RowDeleted RowKept RowCounted
  handle_row-cases r p = elim (Bool-cases (leb max_settlement_attempts r.attempts)) [
    | inl e ↦ elim (Bool-cases (db.delete_ok r.id)) [
      | inl d ↦ inl (rw (e, d) refl, rw (e, d) refl)
      | inr d ↦ inr (inl (rw (e, d) refl, rw (e, d) refl))
    ]
    | inr e ↦
        elim (Option-cases (replay_one show bad_metadata bad_response post r.id r.settlement)) [
          | inl n ↦ elim (Bool-cases (db.delete_ok r.id)) [
            | inl d ↦ inl (rw (e, n, d) refl, rw (e, n, d) refl)
            | inr d ↦ inr (inl (rw (e, n, d) refl, rw (e, n, d) refl))
          ]
          | inr (x, n) ↦ elim (Bool-cases (db.increment_ok r.id)) [
            | inl d ↦ inr (inr (rw (e, n, d) refl, rw (e, n, d) refl))
            | inr d ↦ inr (inl (rw (e, n, d) refl, rw (e, n, d) refl))
          ]
        ]
  ]

  handle_row-left :
      (done : List Row) (r : Row) (rows : List Row) (p : Pass)
      → p.table ≡ done ++ r ∷ rows
      → Fresh r.id done
      → Fresh r.id rows
      → (handle_row show bad_metadata bad_response post db r p).table ≡ done ++ (left_of r ++ rows)
  unfolding RowDeleted RowKept RowCounted
  handle_row-left done r rows p same f g =
      let put : (l : List Row) → left_of r ≡ l → done ++ (l ++ rows) ≡ done ++ (left_of r ++ rows) =
        (λ l e. ap (λ l. done ++ (l ++ rows)) (sym e)) in
      elim (handle_row-cases r p) [
        | inl (l, e) ↦ e ∙ (ap (delete_pending r.id) same ∙ (delete_at done r rows f g ∙ put [] l))
        | inr (inl (l, e)) ↦ e ∙ (same ∙ put (r ∷ []) l)
        | inr (inr (l, e)) ↦
            e
            ∙ (ap (increment_attempts r.id) same
                ∙ (increment_at done r rows f g
                    ∙ put (record r { attempts = suc r.attempts } ∷ []) l))
      ]

  Apart-append :
      (done : List Row) (r : Row) (rows : List Row)
      → Apart done rows
      → Fresh r.id rows
      → Apart (done ++ left_of r) rows
  Apart-append done r [] a f = tt
  Apart-append done r (x ∷ xs) a f =
      let e : (r.id == x.id) ≡ false = ground (arith, f.0) in
      (Fresh-append x.id done (left_of r) a.0 (left-Fresh x.id r e), Apart-append done r xs a.1 f.1)

  handle_rows-left :
      (done rows : List Row) (p : Pass)
      → p.table ≡ done ++ rows
      → Apart done rows
      → Distinct rows
      → (handle_rows show bad_metadata bad_response post db rows p).table ≡ done ++ left_of_all rows
  unfolding handle_rows
  handle_rows-left done [] p same a d = same
  handle_rows-left done (r ∷ rs) p same a d =
      handle_rows-left (done ++ left_of r) rs
        (handle_row show bad_metadata bad_response post db r p)
        (handle_row-left done r rs p same a.0 d.0 ∙ sym (append_assoc done (left_of r) rs))
        (Apart-append done r rs a.1 d.0) d.1
      ∙ append_assoc done (left_of r) (left_of_all rs)

  Apart-nil : (rows : List Row) → Apart [] rows
  Apart-nil [] = tt
  Apart-nil (r ∷ rs) = (tt, Apart-nil rs)

  -- If the rows can be counted and fetched, and their ids are distinct, then a pass sets the flag
  -- exactly when there were at least as many rows as the threshold, and leaves of every row what
  -- the row's own attempts, replay and statement make of it, however many rows there are: the
  -- deletions and updates during the pass do not disturb the rest.
  pub reconcile_once-left :
      (threshold : ℕ) (backpressure : Bool) (rows : List Row)
      → Distinct rows
      → let (flag, p) =
          reconcile_once show bad_metadata bad_response post db true true threshold backpressure
            rows in
        (flag ≡ leb threshold (length rows)) × (p.table ≡ left_of_all rows)
  unfolding reconcile_once
  reconcile_once-left threshold backpressure [] d = (refl, refl)
  reconcile_once-left threshold backpressure (r ∷ rs) d =
      let start : Pass = record { table = r ∷ rs; replayed = 0; failed = 0; evicted = 0 } in
      (refl, handle_rows-left [] (r ∷ rs) start refl (Apart-nil (r ∷ rs)) d)
