-- ===== src/Router/Score.antt =====
-- src/router/complexity.rs: `score_complexity`. The operations of `f64` beside `F64`, what the two
-- regular expressions over a text find, and `str::to_lowercase` are arguments.
use arbstr.Prelude.{
  ℕ, ◌+◌, ◌/◌, ◌<>◌, Bool, String, List, [], ◌∷◌, map, filter, length, ltb, any, str_eq,
  if◌then◌else◌,
}
use arbstr.Router.Types.{contains}
use arbstr.Router.Cost.{F64}
use arbstr.Request.Types.{Message, content_text}
use arbstr.Sse.Json.{Json}

-- What else is used of `f64`: difference, exponential, minimum, `<`, the test for zero, and the two
-- literals that are no whole numbers, `-0.003` and `-0.5`.
pub record Floats (C : Type 0) : Type 0 where
  pub sub : C → C → C
  pub exp : C → C
  pub min : C → C → C
  pub lt : C → C → Bool
  pub is_zero : C → Bool
  pub per_token : C
  pub per_message : C

-- `ComplexityWeightsConfig`.
pub record Weights (C : Type 0) : Type 0 where
  pub context_length : C
  pub code_blocks : C
  pub multi_file : C
  pub reasoning_keywords : C
  pub conversation_depth : C
  pub extra_keywords : List String

-- What the regular expressions find in a text: the number of fenced blocks, the file paths, and the
-- file extensions.
pub record Patterns : Type 0 where
  pub code_blocks : String → ℕ
  pub file_paths : String → List String
  pub file_exts : String → List String

-- `MIN_TEXT_LEN`, in bytes.
abbrev pub min_text_len : ℕ
min_text_len = 10

abbrev pub default_keywords : List String
default_keywords =
    "architect" ∷ "design" ∷ "tradeoff" ∷ "refactor" ∷ "why does" ∷ "compare"
    ∷ "across the codebase" ∷ "step by step" ∷ "analyze" ∷ "evaluate" ∷ "debug" ∷ []

-- `join("\n")`.
unfoldable pub join_lines : List String → String
join_lines [] = ""
join_lines (s ∷ []) = s
join_lines (s ∷ t ∷ more) = s <> ("\n" <> join_lines (t ∷ more))

-- The distinct texts that a `HashSet` holds after insertions.
unfoldable pub inserted : List String → List String → List String
inserted seen [] = seen
inserted seen (s ∷ more) = inserted (if any (λ t. str_eq t s) seen then seen else s ∷ seen) more

module _ (f : F64) (x : Floats f.Carrier) (w : Weights f.Carrier) (re : Patterns)
    (to_lowercase : String → String) (byte_len : String → ℕ) where
  open f use {Carrier, from_u64, add, mul, div}

  -- `(count as f64 / 3.0).min(1.0)`.
  unfoldable pub third : ℕ → Carrier
  third count = x.min (div (from_u64 count) (from_u64 3)) (from_u64 1)

  -- `1.0 / (1.0 + (slope * (value - centre)).exp())`.
  unfoldable pub sigmoid : Carrier → ℕ → ℕ → Carrier
  sigmoid slope value centre =
      div (from_u64 1)
        (add (from_u64 1) (x.exp (mul slope (x.sub (from_u64 value) (from_u64 centre)))))

  unfoldable pub signal_context_length : String → Carrier
  unfolding sigmoid
  signal_context_length text = sigmoid x.per_token (byte_len text / 4) 1000

  unfoldable pub signal_code_blocks : String → Carrier
  unfolding third
  signal_code_blocks text = third (re.code_blocks text)

  unfoldable pub signal_multi_file : String → Carrier
  unfolding third
  signal_multi_file text =
      third (length (inserted (inserted [] (re.file_paths text)) (re.file_exts text)))

  -- The keywords that the text contains, the default ones as they are, the extra ones in lower case.
  unfoldable pub keyword_count : String → ℕ
  keyword_count text =
      let lower = to_lowercase text in
      length (filter (contains lower) default_keywords)
      + length (filter (λ kw. contains lower (to_lowercase kw)) w.extra_keywords)

  unfoldable pub signal_reasoning_keywords : String → Carrier
  unfolding third
  signal_reasoning_keywords text = third (keyword_count text)

  unfoldable pub signal_conversation_depth : ℕ → Carrier
  unfolding sigmoid
  signal_conversation_depth count = sigmoid x.per_message count 6

  -- `fold((0.0, 0.0), ..)` over the signals with their weights.
  unfoldable pub weighted : List (Carrier × Carrier) → Carrier × Carrier → Carrier × Carrier
  weighted [] sums = sums
  weighted ((signal, weight) ∷ more) (ws, wt) =
      weighted more (add ws (mul signal weight), add wt weight)

  -- `f64::clamp`, as it is documented: a number that is not below the one bound and not above the
  -- other is returned as it is, and so is NaN.
  unfoldable pub clamp : Carrier → Carrier → Carrier → Carrier
  clamp c low high = if x.lt c low then low else if x.lt high c then high else c

  unfoldable pub score_of : Carrier × Carrier → Carrier
  unfolding clamp
  score_of (weighted_sum, weight_total) =
      if x.is_zero weight_total
      then from_u64 1
      else clamp (div weighted_sum weight_total) (from_u64 0) (from_u64 1)

  abbrev pub signals : String → ℕ → List (Carrier × Carrier)
  signals text count =
      (signal_context_length text, w.context_length)
      ∷ (signal_code_blocks text, w.code_blocks)
      ∷ (signal_multi_file text, w.multi_file)
      ∷ (signal_reasoning_keywords text, w.reasoning_keywords)
      ∷ (signal_conversation_depth count, w.conversation_depth)
      ∷ []

  unfoldable pub score_text : String → ℕ → Carrier
  unfolding score_of
  score_text text count =
      if ltb (byte_len text) min_text_len
      then from_u64 1
      else score_of (weighted (signals text count) (from_u64 0, from_u64 0))

  module _ (j : Json) where
    -- The text that is scored.
    abbrev pub conversation : List (Message j.Value) → String
    conversation messages = join_lines (map (λ m. content_text j m.content) messages)

    unfoldable pub score_complexity : List (Message j.Value) → Carrier
    unfolding score_text
    score_complexity [] = from_u64 1
    score_complexity (m ∷ more) = score_text (conversation (m ∷ more)) (length (m ∷ more))
