-- ===== src/Sse/Json.antt =====
-- What the program uses of the JSON crate and of Rust's text functions: interfaces, not definitions.
use arbstr.Prelude.{ℕ, Bool, Option, String, List}

-- `serde_json::Value` with its accessors, each as the crate documents it.
pub record Json : Type 1 where
  pub Value : Type 0
  pub from_str : List ℕ → Option Value
  pub get : String → Value → Option Value
  pub get_index : ℕ → Value → Option Value
  pub as_str : Value → Option String
  pub as_u64 : Value → Option ℕ
  pub is_null : Value → Bool

-- `std::str::from_utf8(..).is_ok()` and `str::trim`, over bytes.
pub record Utf8 : Type 0 where
  pub is_utf8 : List ℕ → Bool
  pub trim : List ℕ → List ℕ
