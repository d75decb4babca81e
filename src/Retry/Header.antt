-- ===== src/Retry/Header.antt =====
-- src/proxy/retry.rs: `format_retries_header`.
use arbstr.Prelude.{
  ℕ, ◌+◌, ◌%◌, ◌^◌, ◌<>◌, Option, none, some, String, List, [], ◌∷◌, map, str_eq, if◌then◌else◌,
}
use arbstr.Retry.Attempts.{AttemptRecord}

-- Count one attempt: at the entry of its provider if there is one, else in a new one at the end. The
-- counts are `u32`.
unfoldable pub count : String → List (String × ℕ) → List (String × ℕ)
count name [] = (name, 1) ∷ []
count name ((n, k) ∷ counts) =
    let rest = count name counts in
    if str_eq n name then (n, (k + 1) % 2 ^ 32) ∷ counts else (n, k) ∷ rest

unfoldable pub count_all : List AttemptRecord → List (String × ℕ) → List (String × ℕ)
count_all [] counts = counts
count_all (a ∷ more) counts = count_all more (count a.provider_name counts)

module _ (show : ℕ → String) where
  abbrev entry_text : String × ℕ → String
  entry_text (name, k) = show k <> "/" <> name

  -- `join(", ")`.
  unfoldable pub join : List String → String
  join [] = ""
  join (s ∷ []) = s
  join (s ∷ t ∷ ss) = s <> ", " <> join (t ∷ ss)

  unfoldable pub format_retries_header : List AttemptRecord → Option String
  format_retries_header [] = none
  format_retries_header (a ∷ more) = some (join (map entry_text (count_all (a ∷ more) [])))
