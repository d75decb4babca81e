-- ===== src/Handlers/Rows.antt =====
-- src/proxy/handlers.rs: how many rows of the log a request writes.
use arbstr.Prelude.{ℕ, ◌≡◌, refl, Option, String, length, Bool-cases, inl, inr, if◌then◌else◌}
use arbstr.Handlers.Provider.{RequestOutcome}
use arbstr.Handlers.Serving.{RequestContext, AppState, Clock, log_error_to_db, log_success_to_db}

-- One row, if there is a writer.
abbrev pub rows : AppState → ℕ
rows s = if s.db_writer then 1 else 0

module _ {C : Type 0} (s : AppState) (ctx : RequestContext) (clock : Clock) where
  pub length-log_error_to_db :
      (p : Option String) (status : ℕ) (m : String) (score : Option C) (tier : Option String)
      → length (log_error_to_db s ctx clock p status m score tier) ≡ rows s
  unfolding log_error_to_db
  length-log_error_to_db p status m score tier = elim (Bool-cases s.db_writer) [
    | inl e ↦ rw e refl
    | inr e ↦ rw e refl
  ]

  pub length-log_success_to_db :
      {V : Type 0} (o : RequestOutcome V C) (score : Option C) (tier : Option String)
      → length (log_success_to_db s ctx clock o score tier) ≡ rows s
  unfolding log_success_to_db
  length-log_success_to_db o score tier = elim (Bool-cases s.db_writer) [
    | inl e ↦ rw e refl
    | inr e ↦ rw e refl
  ]
