-- ===== src/Handlers/Gate.antt =====
-- src/proxy/handlers.rs: the vault gate of `chat_completions`, between the resolution of the
-- candidates and the path. What the vault answers to the reservation is an argument, and so is the
-- `Authorization` header, as bytes, if it is a text.
pub mod Clean
pub mod Cover
use arbstr.Prelude.{
  ℕ, ◌<>◌, Bool, true, false, Option, none, some, String, List, [], ◌∷◌, if◌then◌else◌,
}
use arbstr.Router.Types.{SelectedProvider, tier_text}
use arbstr.Router.Selector.{Router, frontier_rates}
use arbstr.Request.Types.{ChatCompletionRequest, estimate_tokens, get_or}
use arbstr.Sse.Observer.{ascii, strip_prefix}
use arbstr.Vault.Client.{
  VaultError, insufficient_balance, policy_denied, rate_limited, unavailable, other, VaultResult,
  ok, err, Reservation,
}
use arbstr.Vault.Client
use arbstr.Vault.Reserve.{estimate_reserve_msats}
use arbstr.Handlers.Resolve.{ResolvedCandidates}
use arbstr.Handlers.Response.{Response, vault_error}
use arbstr.Handlers.Serving.{
  VaultSettings, RequestContext, AppState, Clock, Served, log_error_to_db,
}

-- `Display for VaultError`.
unfoldable pub vault_error_text : VaultError → String
vault_error_text insufficient_balance = "Insufficient balance"
vault_error_text (policy_denied e) = "Policy denied: " <> e
vault_error_text rate_limited = "Vault rate limited"
vault_error_text (unavailable e) = "Vault unavailable: " <> e
vault_error_text (other e) = "Vault error: " <> e

-- How the gate ends: the request goes on, perhaps with a reservation and with its output capped; it
-- is refused; or the first candidate is missing, which is a panic.
pub data Gate (V F C : Type 0) : Type 0 where
  passes : RequestContext → ChatCompletionRequest V F → Gate V F C
  refuses : Served V C → Gate V F C
  gate_panics : Gate V F C

-- The bearer token of the `Authorization` header.
unfoldable pub agent_token : Option (List ℕ) → Option (List ℕ)
agent_token none = none
agent_token (some header) = strip_prefix (ascii "Bearer ") header

-- `max_tokens`, where it is absent.
unfoldable pub cap_tokens :
    {V F : Type 0} → ℕ → ChatCompletionRequest V F → ChatCompletionRequest V F
cap_tokens default r = record r { max_tokens = some (get_or r.max_tokens default) }

-- The rates of the reservation, of the frontier or else of the first candidate.
first_rates : List SelectedProvider → Option (ℕ × ℕ × ℕ)
first_rates [] = none
first_rates (c ∷ cs) = some (c.input_rate, c.output_rate, c.base_fee)

unfoldable pub reserve_rates : List SelectedProvider → Option (ℕ × ℕ × ℕ) → Option (ℕ × ℕ × ℕ)
unfolding first_rates
reserve_rates candidates none = first_rates candidates
reserve_rates candidates (some rates) = some rates

-- A refusal: its response, its row, and nothing else.
unfoldable pub refusal :
    {V C : Type 0}
    → AppState
    → RequestContext
    → Clock
    → ResolvedCandidates C
    → ℕ
    → String
    → String
    → String
    → String
    → Served V C
refusal s ctx clock resolved status logged message kind code = record {
  response = record { status = status; headers = []; body = vault_error message kind code };
  logs =
      log_error_to_db s ctx clock none status logged resolved.complexity_score
        (some (tier_text resolved.tier));
  reports = [];
  charges = [];
}

module _ {V F C : Type 0} (show : ℕ → String) (json_len : List V → Option ℕ) (router : Router)
    (post : List ℕ → ℕ → VaultResult Reservation) (s : AppState) (ctx : RequestContext)
    (clock : Clock) (resolved : ResolvedCandidates C) where
  unfoldable pub after_reserve : ChatCompletionRequest V F → VaultResult Reservation → Gate V F C
  unfolding refusal
  after_reserve request (ok reservation) =
      passes (record ctx { reservation_id = some reservation.id }) request
  after_reserve request (err e) =
      let status = Client.status_code e in
      refuses (
        refusal s ctx clock resolved status (vault_error_text e) (vault_error_text e)
          "billing_error" ("vault_" <> show status))

  unfoldable pub reserve_at :
      List ℕ → ChatCompletionRequest V F → ℕ × ℕ → Option (ℕ × ℕ × ℕ) → Gate V F C
  unfolding after_reserve
  reserve_at token request estimate none = gate_panics
  reserve_at token request (est_input, est_output) (some (input_rate, output_rate, base_fee)) =
      after_reserve request
        (post token (estimate_reserve_msats est_input est_output input_rate output_rate base_fee))

  unfoldable pub with_token : ℕ → ChatCompletionRequest V F → Option (List ℕ) → Gate V F C
  unfolding reserve_at refusal
  with_token default request none = refuses (
      refusal s ctx clock resolved 401 "Missing bearer token for vault billing"
        "Authorization: Bearer <token> required" "authentication_error" "invalid_api_key")
  with_token default request (some token) =
      let capped = cap_tokens default request in
      reserve_at token capped (estimate_tokens json_len capped default)
        (reserve_rates resolved.candidates (frontier_rates router ctx.model))

  unfoldable pub vault_gate :
      Option VaultSettings → Option (List ℕ) → ChatCompletionRequest V F → Gate V F C
  unfolding with_token refusal
  vault_gate none authorization request = passes ctx request
  vault_gate (some v) authorization request =
      if v.backpressure
      then refuses (
          refusal s ctx clock resolved 503
            "Payment service backpressure: too many pending settlements"
            "Payment service temporarily unavailable" "server_error" "vault_backpressure")
      else with_token v.default_reserve_tokens request (agent_token authorization)
