-- ===== src/Api/Pages.antt =====
-- src/proxy/logs.rs: what the pages of a listing hold.
use arbstr.Prelude.{ℕ, ◌+◌, ◌^◌, ◌≤◌, ◌<◌, ◌≡◌, ap, map, String, arith}
use arbstr.Storage.Table.{Table}
use arbstr.Storage.Query.{SortColumn, SortDirection, Filters, query_logs}
use arbstr.Api.Logs.{LogsResponse, entry_of, offset_of, logs_page}

-- The offset comes back after `2 ^ 26` pages of 64.
offset_wraps : (page : ℕ) → 1 ≤ page → offset_of (page + 2 ^ 26) 64 ≡ offset_of page 64
unfolding offset_of
offset_wraps page h = omega arith

module _ {C : Type 0} (lower : String → String)
    (sort : SortColumn → SortDirection → Table C → Table C) where
  -- With 64 entries a page, page `page + 2 ^ 26` of a listing shows the entries of page `page`,
  -- for every page from 1 whose number plus `2 ^ 26` is a `u32`, every filter, order and table, also where that is far past the last
  -- page: the offset of the rows is computed modulo `2 ^ 32`.
  pub far_page-repeats :
      (f : Filters)
      → (column : SortColumn) → (direction : SortDirection) → (page : ℕ) → (t : Table C) → 1 ≤ page
      → page + 2 ^ 26 < 2 ^ 32
      → LogsResponse.entries (logs_page lower sort f column direction (page + 2 ^ 26) 64 t)
        ≡ LogsResponse.entries (logs_page lower sort f column direction page 64 t)
  unfolding logs_page
  far_page-repeats f column direction page t h u =
      ap (λ o. map entry_of (query_logs lower sort f column direction 64 o t)) (offset_wraps page h)
