-- ===== src/Api/Range.antt =====
-- src/proxy/stats.rs: `resolve_time_range`, and src/proxy/validation.rs. A time is a number of seconds
-- from a fixed day long before any range; the reading of RFC 3339 is an argument.
use arbstr.Prelude.{
  ℕ, ◌-◌, ◌*◌, ◌<>◌, Bool, true, false, Option, none, some, String, List, any, str_eq,
  if◌then◌else◌,
}
use arbstr.Router.Types.{ProviderConfig, bad_request, not_found, database, Result, ok, err}
use arbstr.Storage.Table.{Stored, Table}
use arbstr.Storage.Query.{exists_in_db}

infixl 5 ◌>>=◌
abbrev pub ◌>>=◌ {ℓ κ} : {A : Type ℓ} {B : Type κ} → Result A → (A → Result B) → Result B
ok a >>= f = f a
err e >>= f = err e

-- A check of a parameter, where it is given.
abbrev pub optional : (String → Result (Unit {0})) → Option String → Result (Unit {0})
optional check none = ok tt
optional check (some s) = check s

pub data RangePreset : Type 0 where
  last_1h last_24h last_7d last_30d : RangePreset

-- `RangePreset::parse`.
unfoldable pub parse_preset : String → Option RangePreset
parse_preset s =
    if str_eq s "last_1h"
    then some last_1h
    else if str_eq s "last_24h"
    then some last_24h
    else if str_eq s "last_7d"
    then some last_7d
    else if str_eq s "last_30d"
    then some last_30d
    else none

-- `RangePreset::duration`, in seconds.
unfoldable pub duration : RangePreset → ℕ
duration last_1h = 3600
duration last_24h = 24 * 3600
duration last_7d = 7 * (24 * 3600)
duration last_30d = 30 * (24 * 3600)

-- What reading a time gives: the time, or the error's text.
pub data Read : Type 0 where
  time : ℕ → Read
  bad : String → Read

read_as : String → Read → Result ℕ
read_as what (time t) = ok t
read_as what (bad e) = err (bad_request ("Invalid '" <> what <> "' timestamp: " <> e))

preset_since : ℕ → String → Option RangePreset → Result ℕ
preset_since now r none =
    err
      (bad_request ("Invalid range '" <> r <> "'. Supported: last_1h, last_24h, last_7d, last_30d"))
preset_since now r (some p) = ok (now - duration p)

module _ (read : String → Read) (now : ℕ) where
  since_of : Option String → Option String → Result ℕ
  unfolding read_as preset_since
  since_of range (some s) = read_as "since" (read s)
  since_of (some r) none = preset_since now r (parse_preset r)
  since_of none none = ok (now - duration last_7d)

  until_of : Option String → Result ℕ
  unfolding read_as
  until_of (some u) = read_as "until" (read u)
  until_of none = ok now

  unfoldable pub resolve_time_range : Option String → Option String → Option String → Result (ℕ × ℕ)
  unfolding since_of until_of
  resolve_time_range range since until = do
    since_dt ← since_of range since
    until_dt ← until_of until
    ok (since_dt, until_dt)

-- `validate_model_filter` and `validate_provider_filter`: `same` is `eq_ignore_ascii_case`, `lower`
-- is SQLite's, and the table is read where the database works.
module _ {C : Type 0} (same : String → String → Bool) (lower : String → String)
    (providers : List ProviderConfig) (db : Option (Table C)) where
  checked : String → String → (Stored C → Option String) → Bool → Result (Unit {0})
  checked what value column true = ok tt
  checked what value column false = elim db [
    | none ↦ err (database "query failed")
    | some t ↦
        if exists_in_db lower column value t
        then ok tt
        else err (not_found (what <> " '" <> value <> "' not found"))
  ]

  unfoldable pub validate_model_filter : String → Result (Unit {0})
  unfolding checked
  validate_model_filter model =
      checked "Model" model (λ r. some r.log.model)
        (any (λ p. any (λ m. same m model) p.models) providers)

  unfoldable pub validate_provider_filter : String → Result (Unit {0})
  unfolding checked
  validate_provider_filter provider =
      checked "Provider" provider (λ r. r.log.provider) (any (λ p. same p.name provider) providers)
