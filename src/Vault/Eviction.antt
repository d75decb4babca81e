-- ===== src/Vault/Eviction.antt =====
-- src/proxy/vault.rs: what repeated reconciliation passes do to the stored settlements.
use arbstr.Prelude.{
  ℕ, zero, suc, ◌+◌, ◌≤◌, ◌≡◌, refl, sym, subst, ◌∙◌, ◌⊎◌, inl, inr, Bool, true, false, Option,
  Option-cases, Bool-cases, String, List, [], ◌∷◌, ◌++◌, leb, le→leb, All, All-mono, arith,
}
use arbstr.Vault.Client.{Answer}
use arbstr.Vault.Pending.{
  Row, max_settlement_attempts, Request, Database, replay_one, reconcile_once,
}
use arbstr.Vault.Reconcile.{
  Fresh, Distinct, Fresh-append, left-Fresh, left_of, left_of_all, reconcile_once-left,
}

-- Every statement on a row succeeds.
abbrev pub working : Database
working = record { delete_ok = λ id. true; increment_ok = λ id. true }

-- Every row has had at least so many attempts.
abbrev Tried : ℕ → List Row → Type 0
Tried n rows = All (λ r. n ≤ r.attempts) rows

Tried-append : (n : ℕ) (xs ys : List Row) → Tried n xs → Tried n ys → Tried n (xs ++ ys)
Tried-append n [] ys a b = b
Tried-append n (x ∷ xs) ys a b = (a.0, Tried-append n xs ys a.1 b)

Tried-zero : (rows : List Row) → Tried 0 rows
Tried-zero [] = tt
Tried-zero (r ∷ rs) = (omega arith, Tried-zero rs)

module _ (show : ℕ → String) {V : Type 0} (bad_metadata : String → Option String)
    (bad_response : V → Option String) where
  module _ (post : ℕ → Request → ℕ → Answer V) where
    -- A row goes, which it does after its attempts, or it stays with one attempt more.
    pub left_of-cases :
        (r : Row)
        → (left_of show bad_metadata bad_response post working r ≡ [])
          ⊎ (leb max_settlement_attempts r.attempts ≡ false)
            × (left_of show bad_metadata bad_response post working r
                ≡ record r { attempts = suc r.attempts } ∷ [])
    left_of-cases r = elim (Bool-cases (leb max_settlement_attempts r.attempts)) [
      | inl e ↦ inl (rw e refl)
      | inr e ↦
          elim (Option-cases (replay_one show bad_metadata bad_response post r.id r.settlement)) [
            | inl n ↦ inl (rw (e, n) refl)
            | inr (x, n) ↦ inr (e, rw (e, n) refl)
          ]
    ]

    Tried-left :
        (n : ℕ) (rows : List Row)
        → Tried n rows
        → Tried (suc n) (left_of_all show bad_metadata bad_response post working rows)
    Tried-left n [] a = tt
    Tried-left n (r ∷ rs) a =
        let rest = left_of_all show bad_metadata bad_response post working rs in
        elim (left_of-cases r) [
          | inl e ↦ subst (λ l. Tried (suc n) (l ++ rest)) (sym e) (Tried-left n rs a.1)
          | inr (_, e) ↦
              subst (λ l. Tried (suc n) (l ++ rest)) (sym e)
                (omega (arith, a.0), Tried-left n rs a.1)
        ]

    Fresh-left :
        (id : ℕ) (rows : List Row)
        → Fresh id rows
        → Fresh id (left_of_all show bad_metadata bad_response post working rows)
    Fresh-left id [] f = tt
    Fresh-left id (r ∷ rs) f =
        Fresh-append id (left_of show bad_metadata bad_response post working r) _
          (left-Fresh show bad_metadata bad_response post working id r f.0) (Fresh-left id rs f.1)

    pub Distinct-left :
        (rows : List Row)
        → Distinct rows
        → Distinct (left_of_all show bad_metadata bad_response post working rows)
    Distinct-left [] d = tt
    Distinct-left (r ∷ rs) d =
        let rest = left_of_all show bad_metadata bad_response post working rs in
        elim (left_of-cases r) [
          | inl e ↦ subst (λ l. Distinct (l ++ rest)) (sym e) (Distinct-left rs d.1)
          | inr (_, e) ↦
              subst (λ l. Distinct (l ++ rest)) (sym e)
                (Fresh-left r.id rs d.0, Distinct-left rs d.1)
        ]

    left-gone :
        (rows : List Row)
        → Tried max_settlement_attempts rows
        → left_of_all show bad_metadata bad_response post working rows ≡ []
    left-gone [] a = refl
    left-gone (r ∷ rs) a =
        let e : leb max_settlement_attempts r.attempts ≡ true = le→leb _ _ a.0 in
        rw (e, left-gone rs a.1) refl

  module _ (post : ℕ → ℕ → Request → ℕ → Answer V) (threshold : ℕ) where
    -- The `n`-th pass and those after it, `k` in all, with nothing stored in between.
    unfoldable pub passes : ℕ → ℕ → Bool → List Row → List Row
    passes zero n flag rows = rows
    passes (suc k) n flag rows =
        let (f, p) =
          reconcile_once show bad_metadata bad_response (post n) working true true threshold flag
            rows in
        passes k (suc n) f p.table

    after_pass :
        (n : ℕ) (flag : Bool) (rows : List Row)
        → Distinct rows
        → (reconcile_once show bad_metadata bad_response
            (post n)
            working
            true
            true
            threshold
            flag
            rows).1.table
          ≡ left_of_all show bad_metadata bad_response (post n) working rows
    after_pass n flag rows d =
        (reconcile_once-left show bad_metadata bad_response (post n) working threshold flag rows
          d).1

    passes-gone :
        (k n m : ℕ) (flag : Bool) (rows : List Row)
        → Distinct rows
        → Tried m rows
        → max_settlement_attempts ≤ k + m
        → passes (suc k) n flag rows ≡ []
    unfolding passes
    passes-gone zero n m flag rows d a le =
        after_pass n flag rows d
        ∙ left-gone (post n) rows (All-mono _ _ rows (λ r t. omega (arith, le, t)) a)
    passes-gone (suc k) n m flag rows d a le =
        let e = sym (after_pass n flag rows d) in
        passes-gone k (suc n) (suc m) _ _ (subst Distinct e (Distinct-left (post n) rows d))
          (subst (Tried (suc m)) e (Tried-left (post n) m rows a)) (omega (arith, le))

    -- If the rows have distinct ids, every statement on the database succeeds, and nothing is stored
    -- in between, then eleven passes in a row leave no row, whatever the vault answers in each.
    eleven_passes-gone :
        (flag : Bool) (rows : List Row) → Distinct rows → passes 11 0 flag rows ≡ []
    eleven_passes-gone flag rows d = passes-gone 10 0 0 flag rows d (Tried-zero rows) (omega arith)
