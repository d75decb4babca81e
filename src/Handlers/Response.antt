-- ===== src/Handlers/Response.antt =====
-- src/proxy/handlers.rs: responses with the headers that arbstr attaches. Which texts can stand in
-- a header, and how a `f64` is written with a number of decimals, are arguments.
use arbstr.Prelude.{ℕ, Bool, Option, none, some, String, List, [], insert, if◌then◌else◌}
use arbstr.Router.Types.{Error, response_status, Tier, tier_text}

pub data Body (V : Type 0) : Type 0 where
  json : V → Body V
  event_stream : Body V
  error_body : Error → Body V
  vault_error : String → String → String → Body V

pub record Response (V : Type 0) : Type 0 where
  pub status : ℕ
  pub headers : List (String × String)
  pub body : Body V

-- `Error::into_response`.
unfoldable pub error_response : {V : Type 0} → Error → Response V
error_response e = record { status = response_status e; headers = []; body = error_body e }

-- `HeaderMap::insert` of a value that may be invalid, which is then only logged.
abbrev pub set_header : {V : Type 0} → (String → Bool) → String → String → Response V → Response V
set_header is_header_value name value r =
    if is_header_value value then record r { headers = insert name value r.headers } else r

module _ {C : Type 0} (is_header_value : String → Bool) (show : ℕ → String)
    (fixed : ℕ → C → String) where
  with_option : {V : Type 0} → String → Option String → Response V → Response V
  with_option name none r = r
  with_option name (some value) r = set_header is_header_value name value r

  cost_text : Option C → Option String
  cost_text none = none
  cost_text (some c) = some (fixed 2 c)

  score_text : Option C → Option String
  score_text none = none
  score_text (some s) = some (fixed 3 s)

  -- The static values "true" and the latency's digits are always valid.
  abbrev always : {V : Type 0} → String → String → Response V → Response V
  always name value r = record r { headers = insert name value r.headers }

  unfoldable pub attach_arbstr_headers :
      {V : Type 0} → Response V → String → ℕ → Option String → Option C → Bool → Response V
  unfolding with_option cost_text
  attach_arbstr_headers r request_id latency_ms provider cost_sats is_streaming =
      let r1 = set_header is_header_value "x-arbstr-request-id" request_id r in
      let r2 =
        if is_streaming
        then always "x-arbstr-streaming" "true" r1
        else with_option "x-arbstr-cost-sats" (cost_text cost_sats)
            (always "x-arbstr-latency-ms" (show latency_ms) r1) in
      with_option "x-arbstr-provider" provider r2

  unfoldable pub attach_retries_header : {V : Type 0} → Response V → Option String → Response V
  unfolding with_option
  attach_retries_header r retries_header = with_option "x-arbstr-retries" retries_header r

  -- The complexity headers of a successful response.
  unfoldable pub attach_complexity : {V : Type 0} → Response V → Option C → Tier → Response V
  unfolding with_option score_text
  attach_complexity r complexity_score tier =
      set_header is_header_value "x-arbstr-tier" (tier_text tier)
        (with_option "x-arbstr-complexity-score" (score_text complexity_score) r)
