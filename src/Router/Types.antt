-- ===== src/Router/Types.antt =====
-- src/config.rs, src/error.rs and src/router/selector.rs: tiers, providers, policy rules and errors.
use Prim.Native.String.{find, len}
use arbstr.Prelude.{ℕ, Bool, Option, none, some, String, List, leb, ◌<>◌}

-- `Tier`, in the order Local < Standard < Frontier.
pub data Tier : Type 0 where
  local standard frontier : Tier

abbrev pub rank : Tier → ℕ
rank local = 0
rank standard = 1
rank frontier = 2

-- The derived `PartialOrd`.
abbrev pub tier_le : Tier → Tier → Bool
tier_le s t = leb (rank s) (rank t)

unfoldable pub escalate : Tier → Option Tier
escalate local = some standard
escalate standard = some frontier
escalate frontier = none

-- `Display for Tier`.
unfoldable pub tier_text : Tier → String
tier_text local = "local"
tier_text standard = "standard"
tier_text frontier = "frontier"

pub record ProviderConfig : Type 0 where
  pub name : String
  pub url : String
  pub api_key : Option String
  pub models : List String
  pub input_rate : ℕ
  pub output_rate : ℕ
  pub base_fee : ℕ
  pub tier : Tier
  pub auto_discover : Bool

pub record PolicyRule : Type 0 where
  pub name : String
  pub allowed_models : List String
  pub strategy : String
  pub max_sats_per_1k_output : Option ℕ
  pub keywords : List String

pub record SelectedProvider : Type 0 where
  pub name : String
  pub url : String
  pub api_key : Option String
  pub input_rate : ℕ
  pub output_rate : ℕ
  pub base_fee : ℕ
  pub tier : Tier

-- `From<&ProviderConfig> for SelectedProvider`.
unfoldable pub selected : ProviderConfig → SelectedProvider
selected p = record {
  name = p.name;
  url = p.url;
  api_key = p.api_key;
  input_rate = p.input_rate;
  output_rate = p.output_rate;
  base_fee = p.base_fee;
  tier = p.tier;
}

-- `Error`; an error of another crate is its text.
pub data Error : Type 0 where
  config : String → Error
  no_providers : String → Error
  no_policy_match : Error
  provider : String → Error
  upstream : String → Error
  bad_request : String → Error
  not_found : String → Error
  internal : String → Error
  no_tier_match : Tier → String → Error
  circuit_open : String → Error
  database : String → Error

-- The status of `into_response`.
unfoldable pub response_status : Error → ℕ
response_status (config _) = 500
response_status (no_providers _) = 400
response_status no_policy_match = 400
response_status (no_tier_match _ _) = 400
response_status (provider _) = 502
response_status (upstream _) = 502
response_status (bad_request _) = 400
response_status (not_found _) = 404
response_status (internal _) = 500
response_status (circuit_open _) = 503
response_status (database _) = 500

-- `Display for Error`.
unfoldable pub error_text : Error → String
unfolding tier_text
error_text (config e) = "Configuration error: " <> e
error_text (no_providers model) = "No providers available for model '" <> model <> "'"
error_text no_policy_match = "No providers match policy constraints"
error_text (provider e) = "Provider error: " <> e
error_text (upstream e) = "Upstream request failed: " <> e
error_text (bad_request e) = "Invalid request: " <> e
error_text (not_found e) = "Not found: " <> e
error_text (internal e) = "Internal error: " <> e
error_text (no_tier_match tier model) =
    "No providers match tier '" <> tier_text tier <> "' for model '" <> model <> "'"
error_text (circuit_open model) = "All providers have open circuits for model '" <> model <> "'"
error_text (database e) = "Database error: " <> e

pub data Result {ℓ} (A : Type ℓ) : Type ℓ where
  ok : A → Result A
  err : Error → Result A

-- `str::contains`.
abbrev pub contains : String → String → Bool
contains s t = leb (find s t) (len s)
