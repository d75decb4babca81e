-- ===== src/Examples/Billing.antt =====
-- Runs of the reconciliation of stored settlements.
use arbstr.Prelude.{ℕ, zero, suc, ◌≡◌, refl, true, none, some, String, List, [], ◌∷◌, leb, length}
use arbstr.Vault.Client
use arbstr.Vault.Client.{Answer, attempt, attempts, call_with_retry}
use arbstr.Vault.Pending.{Row, Request, Database, replay_one, reconcile_once}
use arbstr.Vault.Reconcile.{left_of_all, reconcile_once-left}

abbrev digits : ℕ → String
digits n = "503"

abbrev pub row : ℕ → String → ℕ → Row
row id rid tried = record {
  id = id;
  settlement = record {
    settlement_type = "settle";
    reservation_id = rid;
    amount_msats = some 1200;
    metadata = "{}";
  };
  attempts = tried;
}

-- One row that the vault settles, one that it does not answer, and one that has had its attempts.
abbrev pub stored : List Row
stored = row 1 "r1" 0 ∷ row 2 "r2" 3 ∷ row 3 "r3" 10 ∷ []

abbrev vault : ℕ → Request → ℕ → Answer ℕ
vault (suc zero) request n = Client.responded 200 (Client.parsed 1) ""
vault id request n = Client.transport true "timeout"

abbrev statements : Database
statements = record { delete_ok = λ id. true; increment_ok = λ id. true }

left_of_stored :
    left_of_all digits (λ s. none) (λ v. none) vault statements stored ≡ row 2 "r2" 4 ∷ []
unfolding replay_one call_with_retry attempts attempt
left_of_stored = refl

reconcile_once-left_example :
    let (flag, p) =
      reconcile_once digits (λ s. none) (λ v. none) vault statements true true 3 true stored in
    (flag ≡ leb 3 (length stored))
    × (p.table ≡ left_of_all digits (λ s. none) (λ v. none) vault statements stored)
reconcile_once-left_example =
    reconcile_once-left digits (λ s. none) (λ v. none) vault statements 3 true stored
      ((refl, (refl, tt)), ((refl, tt), (tt, tt)))
