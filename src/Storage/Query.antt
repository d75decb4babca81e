-- ===== src/Storage/Query.antt =====
-- src/storage/logs.rs and src/storage/stats.rs: the queries on the log, over the table as a list. The
-- comparison of texts is SQLite's default, byte by byte; `lower` is SQLite's `LOWER`, and `sort` what
-- its `ORDER BY` makes of the rows that are found, by the column and the direction.
use arbstr.Prelude.{
  ℕ, zero, suc, ◌==◌, ◌&&◌, Bool, true, false, Option, none, some, String, List, [], ◌∷◌, filter,
  length, ltb, if◌then◌else◌, any, str_eq,
}
use arbstr.Sse.Observer.{ascii}
use arbstr.Storage.Table.{Stored, Table}

-- `a <= b` on texts, as bytes.
unfoldable pub text_le : List ℕ → List ℕ → Bool
text_le [] t = true
text_le (x ∷ s) [] = false
text_le (x ∷ s) (y ∷ t) = let rest = text_le s t in if ltb x y then true else (x == y) && rest

pub data SortColumn : Type 0 where
  by_timestamp by_cost_sats by_latency_ms : SortColumn

pub data SortDirection : Type 0 where
  ascending descending : SortDirection

pub record Filters : Type 0 where
  pub since : String
  pub until : String
  pub model : Option String
  pub provider : Option String
  pub success : Option Bool
  pub streaming : Option Bool

abbrev bool_eq : Bool → Bool → Bool
bool_eq true b = b
bool_eq false true = false
bool_eq false false = true

unfoldable pub drop {ℓ} : {A : Type ℓ} → ℕ → List A → List A
drop zero xs = xs
drop (suc n) [] = []
drop (suc n) (x ∷ xs) = drop n xs

unfoldable pub take {ℓ} : {A : Type ℓ} → ℕ → List A → List A
take zero xs = []
take (suc n) [] = []
take (suc n) (x ∷ xs) = x ∷ take n xs

module _ (lower : String → String) where
  -- `LOWER(column) = LOWER(?)`; a missing value equals nothing.
  same_text : String → Option String → Bool
  same_text wanted none = false
  same_text wanted (some s) = str_eq (lower s) (lower wanted)

  wants_text : Option String → Option String → Bool
  unfolding same_text
  wants_text none s = true
  wants_text (some wanted) s = same_text wanted s

  wants_bool : Option Bool → Bool → Bool
  wants_bool none b = true
  wants_bool (some wanted) b = bool_eq wanted b

  -- The `WHERE` clause that both queries build.
  unfoldable pub matches : {C : Type 0} → Filters → Stored C → Bool
  unfolding wants_text wants_bool
  matches f r =
      text_le (ascii f.since) (ascii r.log.timestamp)
      && (text_le (ascii r.log.timestamp) (ascii f.until)
          && (wants_text f.model (some r.log.model)
              && (wants_text f.provider r.log.provider
                  && (wants_bool f.success r.log.success
                      && wants_bool f.streaming r.log.streaming))))

  unfoldable pub count_logs : {C : Type 0} → Filters → Table C → ℕ
  count_logs f t = length (filter (matches f) t)

  -- `query_logs`.
  unfoldable pub query_logs :
      {C : Type 0}
      → (SortColumn → SortDirection → Table C → Table C)
      → Filters
      → SortColumn
      → SortDirection
      → ℕ
      → ℕ
      → Table C
      → Table C
  query_logs sort f column direction limit offset t =
      take limit (drop offset (sort column direction (filter (matches f) t)))

  -- `exists_in_db`, for the two columns it accepts.
  unfoldable pub exists_in_db : {C : Type 0} → (Stored C → Option String) → String → Table C → Bool
  unfolding same_text
  exists_in_db column value t = any (λ r. same_text value (column r)) t
