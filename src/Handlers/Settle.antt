-- ===== src/Handlers/Settle.antt =====
-- src/proxy/handlers.rs: `spawn_vault_settle` and `spawn_vault_release`, the tasks behind a charge, with
-- `insert_pending_settlement` of src/proxy/vault.rs. `written` is the metadata as JSON text, and the
-- id of a new row is an argument.
use arbstr.Prelude.{
  ℕ, ◌≡◌, refl, ◌⊎◌, inl, inr, Bool, true, false, Option, none, some, String, List, [], ◌∷◌, ◌++◌,
  ◌&&◌, any, str_eq, if◌then◌else◌, Option-cases,
}
use arbstr.Vault.Client.{Answer, VaultError, call_with_retry}
use arbstr.Vault.Pending.{
  PendingSettlement, Row, Request, settle_request, release_request, settled, released, replay_one,
  settle_parsed,
}
use arbstr.Handlers.Serving.{Charge, settle, release, SettleMetadata}

-- `INSERT OR IGNORE`, where a reservation has one row at most.
unfoldable pub insert_pending_settlement : ℕ → PendingSettlement → List Row → List Row
insert_pending_settlement id s rows =
    if any (λ r. str_eq r.settlement.reservation_id s.reservation_id) rows
    then rows
    else rows ++ record { id = id; settlement = s; attempts = 0 } ∷ []

unfoldable pub pending_of : (SettleMetadata → String) → Charge → PendingSettlement
pending_of written (settle rid msats m) = record {
  settlement_type = "settle";
  reservation_id = rid;
  amount_msats = some msats;
  metadata = written m;
}
pending_of written (release rid reason) = record {
  settlement_type = "release";
  reservation_id = rid;
  amount_msats = none;
  metadata = reason;
}

module _ (show : ℕ → String) {V : Type 0} (bad_metadata : String → Option String)
    (bad_response : V → Option String) (written : SettleMetadata → String) where
  -- The call of the task, and its error, if it fails.
  unfoldable pub perform : (Request → ℕ → Answer V) → Charge → Option VaultError
  perform post (settle rid msats m) =
      settled show bad_metadata bad_response (λ id. post)
        (call_with_retry show (post (settle_request rid msats (written m)))).0
  perform post (release rid reason) =
      released show bad_metadata bad_response (λ id. post)
        (call_with_retry show (post (release_request rid reason))).0

  -- What a failure leaves: a row, if there is a database and the statement works.
  after_charge : Bool → Bool → ℕ → Charge → List Row → Option VaultError → List Row
  after_charge db works id c rows none = rows
  after_charge db works id c rows (some e) =
      let stored = insert_pending_settlement id (pending_of written c) rows in
      if db && works then stored else rows

  -- The task; the first two arguments are whether there is a database, and whether its statement works.
  unfoldable pub charge_task :
      Bool → Bool → ℕ → (Request → ℕ → Answer V) → Charge → List Row → List Row
  unfolding after_charge
  charge_task db works id post c rows = after_charge db works id c rows (perform post c)

  -- No row is for the reservation of a charge.
  abbrev pub IsNew : Charge → List Row → Type 0
  IsNew c rows =
      any (λ r. str_eq r.settlement.reservation_id (pending_of written c).reservation_id) rows
      ≡ false

  -- A charge whose metadata can be read back.
  abbrev pub IsReadable : Charge → Type 0
  IsReadable (settle rid msats m) = bad_metadata (written m) ≡ none
  IsReadable (release rid reason) = Unit

  replay-pending_of :
      (post : Request → ℕ → Answer V) (id : ℕ) (c : Charge)
      → IsReadable c
      → replay_one show bad_metadata bad_response (λ n. post) id (pending_of written c)
        ≡ perform post c
  unfolding replay_one pending_of perform settle_parsed
  replay-pending_of post id (settle rid msats m) h = rw h refl
  replay-pending_of post id (release rid reason) h = refl

  -- With a database whose statement works, for a charge whose metadata can be read back and a
  -- reservation without a row: if the call of the task succeeds, then nothing is stored; if it
  -- fails, then one row is added, and any later replay of it makes the same call as the task did,
  -- with the same outcome for the same answers of the vault.
  pub charge_task-kept :
      (id : ℕ) (post : Request → ℕ → Answer V) (c : Charge) (rows : List Row)
      → IsReadable c
      → IsNew c rows
      → ((perform post c ≡ none) × (charge_task true true id post c rows ≡ rows))
        ⊎ ((e : VaultError) × (perform post c ≡ some e)
            × (charge_task true true id post c rows
                ≡ rows ++ record { id = id; settlement = pending_of written c; attempts = 0 } ∷ [])
            × ((later : Request → ℕ → Answer V)
                → replay_one show bad_metadata bad_response (λ n. later) id (pending_of written c)
                  ≡ perform later c))
  unfolding charge_task after_charge insert_pending_settlement
  charge_task-kept id post c rows readable new = elim (Option-cases (perform post c)) [
    | inl e ↦ inl (e, rw e refl)
    | inr (x, e) ↦ inr (x, e, rw (e, new) refl, λ later. replay-pending_of later id c readable)
  ]
