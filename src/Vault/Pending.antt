-- ===== src/Vault/Pending.antt =====
-- src/proxy/vault.rs: the settlements that are stored while the vault cannot be reached, and the
-- pass that replays them. The table is the list of its rows in the order of creation, in which they
-- are fetched. Whether a statement on the database succeeds, what the vault answers to a request,
-- and whether JSON text has the expected shape (if not, the error's text) are arguments. An amount
-- is stored as `i64` and read back as `u64`, which gives the same bits.
use arbstr.Prelude.{
  ℕ, suc, ◌+◌, ◌%◌, ◌^◌, ◌<>◌, ◌==◌, not, Bool, Option, none, some, String, List, [], ◌∷◌, map,
  filter, leb, str_eq, length, is_empty, if◌then◌else◌,
}
use arbstr.Vault.Client.{Answer, VaultError, other, VaultResult, ok, err, call_with_retry}

pub record PendingSettlement : Type 0 where
  pub settlement_type : String
  pub reservation_id : String
  pub amount_msats : Option ℕ
  pub metadata : String

-- A row of `pending_settlements`.
pub record Row : Type 0 where
  pub id : ℕ
  pub settlement : PendingSettlement
  pub attempts : ℕ

-- `MAX_SETTLEMENT_ATTEMPTS`.
abbrev pub max_settlement_attempts : ℕ
max_settlement_attempts = 10

-- `DELETE ... WHERE id = ?`.
unfoldable pub delete_pending : ℕ → List Row → List Row
delete_pending id rows = filter (λ r. not (r.id == id)) rows

-- `UPDATE ... SET attempts = attempts + 1 WHERE id = ?`.
abbrev pub count_attempt : ℕ → Row → Row
count_attempt id r = if r.id == id then record r { attempts = suc r.attempts } else r

unfoldable pub increment_attempts : ℕ → List Row → List Row
increment_attempts id rows = map (count_attempt id) rows

-- The body that is posted.
pub data Request : Type 0 where
  settle_request : String → ℕ → String → Request
  release_request : String → String → Request

-- Whether the statements on the row with an id succeed.
pub record Database : Type 0 where
  pub delete_ok : ℕ → Bool
  pub increment_ok : ℕ → Bool

-- The table and the three counts, which are `u32`.
pub record Pass : Type 0 where
  pub table : List Row
  pub replayed : ℕ
  pub failed : ℕ
  pub evicted : ℕ

module _ (show : ℕ → String) {V : Type 0} (bad_metadata : String → Option String)
    (bad_response : V → Option String) (post : ℕ → Request → ℕ → Answer V) where
  abbrev or_zero : Option ℕ → ℕ
  or_zero none = 0
  or_zero (some a) = a

  read_response : Option String → Option VaultError
  read_response none = none
  read_response (some e) = some (other ("Invalid settle response: " <> e))

  unfoldable pub settled : VaultResult V → Option VaultError
  unfolding read_response
  settled (ok v) = read_response (bad_response v)
  settled (err e) = some e

  unfoldable pub released : VaultResult V → Option VaultError
  released (ok _) = none
  released (err e) = some e

  unfoldable pub settle_parsed : ℕ → PendingSettlement → Option String → Option VaultError
  unfolding settled
  settle_parsed id s none =
      settled
        (call_with_retry show
          (post id (settle_request s.reservation_id (or_zero s.amount_msats) s.metadata))).0
  settle_parsed id s (some e) = some (other ("Failed to parse settle metadata: " <> e))

  -- The error of a replay, if it fails.
  unfoldable pub replay_one : ℕ → PendingSettlement → Option VaultError
  unfolding settle_parsed released
  replay_one id s =
      if str_eq s.settlement_type "settle"
      then settle_parsed id s (bad_metadata s.metadata)
      else if str_eq s.settlement_type "release"
      then released (call_with_retry show (post id (release_request s.reservation_id s.metadata))).0
      else some (other ("Unknown settlement type: " <> s.settlement_type))

  module _ (db : Database) where
    unfoldable pub after_replay : Row → Pass → Option VaultError → Pass
    after_replay r p none =
        if db.delete_ok r.id
        then record p { table = delete_pending r.id p.table; replayed = (p.replayed + 1) % 2 ^ 32 }
        else p
    after_replay r p (some e) = record p {
      table = if db.increment_ok r.id then increment_attempts r.id p.table else p.table;
      failed = (p.failed + 1) % 2 ^ 32;
    }

    -- One round of the loop over the rows that were fetched.
    unfoldable pub handle_row : Row → Pass → Pass
    handle_row r p =
        if leb max_settlement_attempts r.attempts
        then (if db.delete_ok r.id
            then record p {
              table = delete_pending r.id p.table;
              evicted = (p.evicted + 1) % 2 ^ 32;
            }
            else p)
        else after_replay r p (replay_one r.id r.settlement)

    unfoldable pub handle_rows : List Row → Pass → Pass
    handle_rows [] p = p
    handle_rows (r ∷ rs) p = handle_rows rs (handle_row r p)

    -- `reconcile_once`, from the flag `backpressure` and the table, with the threshold; the first two
    -- arguments are whether counting and fetching the rows succeed.
    unfoldable pub reconcile_once : Bool → Bool → ℕ → Bool → List Row → Bool × Pass
    reconcile_once count_ok fetch_ok threshold backpressure table =
        let start : Pass = record { table = table; replayed = 0; failed = 0; evicted = 0 } in
        if not count_ok
        then (backpressure, start)
        else if is_empty table
        then (leb threshold (length table), start)
        else if not fetch_ok
        then (leb threshold (length table), start)
        else (leb threshold (length table), handle_rows table start)
