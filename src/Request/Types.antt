-- ===== src/Request/Types.antt =====
-- src/proxy/types.rs: the request, its messages, the token estimate and the stream options. JSON
-- values are those of the JSON crate, and `json_len` is the length of a list of them as it writes
-- it; the `f32` settings are of any type. A sum of lengths of texts in memory fits `usize`.
use Prim.Native.String.{len}
use arbstr.Prelude.{
  ℕ, ◌+◌, ◌/◌, ◌%◌, ◌^◌, max, Bool, true, Option, none, some, String, List, [], ◌∷◌, map, find,
  str_eq, if◌then◌else◌,
}
use mathlib.Core.List.{reverse}
use mathlib.Core.Option
use arbstr.Sse.Json.{Json}

pub data MessageContent (V : Type 0) : Type 0 where
  text : String → MessageContent V
  parts : List V → MessageContent V

pub record Message (V : Type 0) : Type 0 where
  pub role : String
  pub content : MessageContent V
  pub name : Option String
  pub extra : List (String × V)

pub data StopSequence : Type 0 where
  single : String → StopSequence
  multiple : List String → StopSequence

pub record StreamOptions : Type 0 where
  pub include_usage : Option Bool

pub record ChatCompletionRequest (V F : Type 0) : Type 0 where
  pub model : String
  pub messages : List (Message V)
  pub temperature : Option F
  pub max_tokens : Option ℕ
  pub stream : Option Bool
  pub stream_options : Option StreamOptions
  pub top_p : Option F
  pub frequency_penalty : Option F
  pub presence_penalty : Option F
  pub stop : Option StopSequence
  pub user : Option String
  pub extra : List (String × V)

abbrev pub get_or {ℓ} : {A : Type ℓ} → Option A → A → A
get_or none d = d
get_or (some a) d = a

-- `MessageContent::char_len`; a text's length is in bytes.
unfoldable pub char_len : {V : Type 0} → (List V → Option ℕ) → MessageContent V → ℕ
char_len json_len (text s) = len s
char_len json_len (parts ps) = get_or (json_len ps) 0

abbrev pub sum : List ℕ → ℕ
sum [] = 0
sum (n ∷ ns) = n + sum ns

-- `estimate_tokens`: the estimates of the input and of the output.
unfoldable pub estimate_tokens :
    {V F : Type 0} → (List V → Option ℕ) → ChatCompletionRequest V F → ℕ → ℕ × ℕ
unfolding char_len
estimate_tokens json_len r default_output =
    let total_chars = sum (map (λ m. char_len json_len m.content) r.messages) in
    (max (total_chars / 4) 1 % 2 ^ 32, get_or r.max_tokens default_output)

asks_usage : Option StreamOptions → Option StreamOptions
asks_usage none = some (record { include_usage = some true })
asks_usage (some opts) = some (record { include_usage = some (get_or opts.include_usage true) })

-- `ensure_stream_options`.
unfoldable pub ensure_stream_options :
    {V F : Type 0} → ChatCompletionRequest V F → ChatCompletionRequest V F
unfolding asks_usage
ensure_stream_options r = record r { stream_options = asks_usage r.stream_options }

module _ (j : Json) where
  open j use {Value, get, as_str}

  and_then {ℓ κ} : {A : Type ℓ} {B : Type κ} → Option A → (A → Option B) → Option B
  and_then none f = none
  and_then (some a) f = f a

  -- The closure of `find_map`: the text of a part of type "text".
  part_text : Value → Option String
  unfolding and_then
  part_text p =
      and_then (and_then (get "type" p) as_str)
        (λ kind. if str_eq kind "text" then and_then (get "text" p) as_str else none)

  first_text : List Value → Option String
  unfolding part_text
  first_text [] = none
  first_text (p ∷ ps) = elim (part_text p) [ none ↦ first_text ps | some s ↦ some s ]

  -- `MessageContent::as_str`.
  unfoldable pub content_text : MessageContent Value → String
  unfolding first_text
  content_text (text s) = s
  content_text (parts ps) = get_or (first_text ps) ""

  abbrev pub is_user : Message Value → Bool
  is_user m = str_eq m.role "user"

  -- `user_prompt`: the text of the last message of the user.
  unfoldable pub user_prompt : {F : Type 0} → ChatCompletionRequest Value F → Option String
  unfolding content_text
  user_prompt r = Option.map (λ m. content_text m.content) (find is_user (reverse r.messages))
