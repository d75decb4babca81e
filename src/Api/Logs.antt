-- ===== src/Api/Logs.antt =====
-- src/proxy/logs.rs: `logs_handler`. Arithmetic on `u32` wraps, as in a release build. What the
-- database, the reading and the writing of times and the sorting do are arguments.
use arbstr.Prelude.{
  ℕ, ◌+◌, ◌-◌, ◌*◌, ◌/◌, ◌%◌, ◌^◌, ◌<>◌, ◌==◌, ◌||◌, max, Bool, true, false, Option, none, some,
  String, List, map, leb, str_eq, if◌then◌else◌,
}
use arbstr.Router.Types.{ProviderConfig, bad_request, internal, Result, ok, err}
use arbstr.Request.Types.{get_or}
use arbstr.Storage.Table.{Stored, Table}
use arbstr.Storage.Query.{
  SortColumn, by_timestamp, by_cost_sats, by_latency_ms, SortDirection, ascending, descending,
  Filters, count_logs, query_logs,
}
use arbstr.Api.Range.{
  ◌>>=◌, Read, optional, resolve_time_range, validate_model_filter, validate_provider_filter,
}

pub record LogsQuery : Type 0 where
  pub range : Option String
  pub since : Option String
  pub until : Option String
  pub model : Option String
  pub provider : Option String
  pub success : Option Bool
  pub streaming : Option Bool
  pub page : Option ℕ
  pub per_page : Option ℕ
  pub sort : Option String
  pub order : Option String

pub record ErrorSection : Type 0 where
  pub status : Option ℕ
  pub message : Option String

-- An entry, with the sections `tokens`, `cost` and `timing` written flat; the row's id is left out.
pub record LogEntry (C : Type 0) : Type 0 where
  pub timestamp : String
  pub model : String
  pub provider : Option String
  pub streaming : Bool
  pub success : Bool
  pub input : Option ℕ
  pub output : Option ℕ
  pub sats : Option C
  pub latency_ms : ℕ
  pub stream_duration_ms : Option ℕ
  pub error : Option ErrorSection

pub record LogsResponse (C : Type 0) : Type 0 where
  pub entries : List (LogEntry C)
  pub page : ℕ
  pub per_page : ℕ
  pub total : ℕ
  pub total_pages : ℕ
  pub since : String
  pub until : String

-- `validate_sort_field`.
unfoldable pub validate_sort_field : String → Result SortColumn
validate_sort_field field =
    if str_eq field "timestamp"
    then ok by_timestamp
    else if str_eq field "cost_sats"
    then ok by_cost_sats
    else if str_eq field "latency_ms"
    then ok by_latency_ms
    else err (
        bad_request
          ("Invalid sort field '" <> field <> "'. Valid options: timestamp, cost_sats, latency_ms"))

-- `validate_sort_order`.
unfoldable pub validate_sort_order : (String → String) → String → Result SortDirection
validate_sort_order to_lowercase order =
    if str_eq (to_lowercase order) "asc"
    then ok ascending
    else if str_eq (to_lowercase order) "desc"
    then ok descending
    else err (bad_request ("Invalid sort order '" <> order <> "'. Valid options: asc, desc"))

abbrev pub u32 : ℕ → ℕ
u32 n = n % 2 ^ 32

unfoldable pub page_of : Option ℕ → ℕ
page_of p = max (get_or p 1) 1

-- `clamp(1, 100)`.
unfoldable pub per_page_of : Option ℕ → ℕ
per_page_of p = let n = get_or p 20 in if leb n 0 then 1 else if leb 101 n then 100 else n

-- `div_ceil` after `total as u32`.
unfoldable pub total_pages_of : ℕ → ℕ → ℕ
total_pages_of total per_page = if total == 0 then 0 else (u32 total + (per_page - 1)) / per_page

unfoldable pub offset_of : ℕ → ℕ → ℕ
offset_of page per_page = u32 ((page - 1) * per_page)

is_some {ℓ} : {A : Type ℓ} → Option A → Bool
is_some none = false
is_some (some _) = true

-- From a row to an entry.
unfoldable pub entry_of : {C : Type 0} → Stored C → LogEntry C
unfolding is_some
entry_of r = record {
  timestamp = r.log.timestamp;
  model = r.log.model;
  provider = r.log.provider;
  streaming = r.log.streaming;
  success = r.log.success;
  input = r.log.input_tokens;
  output = r.log.output_tokens;
  sats = r.log.cost_sats;
  latency_ms = r.log.latency_ms;
  stream_duration_ms = r.stream_duration_ms;
  error =
      if is_some r.log.error_status || is_some r.log.error_message
      then some (record { status = r.log.error_status; message = r.log.error_message })
      else none;
}

module _ {C : Type 0} (lower : String → String)
    (sort : SortColumn → SortDirection → Table C → Table C) where
  -- The handler's answer once everything is validated.
  unfoldable pub logs_page : Filters → SortColumn → SortDirection → ℕ → ℕ → Table C → LogsResponse C
  logs_page f column direction page per_page t =
      let total = count_logs lower f t in
      record {
        entries =
            map entry_of
              (query_logs lower sort f column direction per_page (offset_of page per_page) t);
        page = page;
        per_page = per_page;
        total = total;
        total_pages = total_pages_of total per_page;
        since = f.since;
        until = f.until;
      }

module _ {C : Type 0} (read : String → Read) (to_rfc3339 : ℕ → String)
    (same : String → String → Bool) (lower to_lowercase : String → String)
    (sort : SortColumn → SortDirection → Table C → Table C) (providers : List ProviderConfig) where
  sort_column : Option String → Result SortColumn
  sort_column none = ok by_timestamp
  sort_column (some field) = validate_sort_field field

  sort_direction : Option String → Result SortDirection
  sort_direction none = ok descending
  sort_direction (some order) = validate_sort_order to_lowercase order

  filters : LogsQuery → ℕ × ℕ → Filters
  filters q (since, until) = record {
    since = to_rfc3339 since;
    until = to_rfc3339 until;
    model = q.model;
    provider = q.provider;
    success = q.success;
    streaming = q.streaming;
  }

  -- `logs_handler`, at a time, with the table of the read database if there is one.
  unfoldable pub logs_handler : ℕ → Option (Table C) → LogsQuery → Result (LogsResponse C)
  unfolding sort_column sort_direction filters
  logs_handler now none q = err (internal "Database not available")
  logs_handler now (some t) q = do
    range ← resolve_time_range read now q.range q.since q.until
    model_known ← optional (validate_model_filter same lower providers (some t)) q.model
    provider_known ← optional (validate_provider_filter same lower providers (some t)) q.provider
    column ← sort_column q.sort
    direction ← sort_direction q.order
    ok (
        logs_page lower sort (filters q range) column direction (page_of q.page)
          (per_page_of q.per_page) t)
