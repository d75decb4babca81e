-- ===== src/Examples/Listing.antt =====
-- Runs of the charge's task, of the estimate, of the listing of the providers, and of the end of a
-- time range.
use arbstr.Prelude.{ℕ, ◌≡◌, ◌↔◌, ◌⊎◌, refl, true, false, none, some, String, [], ◌∷◌, Any, arith}
use arbstr.Router.Types.{frontier}
use arbstr.Router.Selector.{select_candidates, first}
use arbstr.Request.Types.{user_prompt}
use arbstr.Vault.Client
use arbstr.Vault.Client.{Answer, VaultError}
use arbstr.Vault.Pending.{Request, replay_one}
use arbstr.Handlers.Serving.{Charge, settle, SettleMetadata}
use arbstr.Handlers.Settle.{perform, charge_task, pending_of, charge_task-kept}
use arbstr.Sse.Observer.{ascii}
use arbstr.Config.Keys.{ApiKey, Provider}
use arbstr.Storage.Query.{matches}
use arbstr.Storage.LastSecond.{last_second-lost}
use arbstr.Api.Estimate.{cost_estimate, priced, cost_estimate-first}
use arbstr.Api.Listing.{list_providers, splits_character, list_providers-panics}
use arbstr.Examples.Serving.{plain_json, whole, digits}
use arbstr.Examples.Routing.{router}
use arbstr.Examples.Chat.{request, same, no_length}
use arbstr.Examples.Files.{loaded_provider, everything, log_of}

abbrev out_of_reach : Request → ℕ → Answer ℕ
out_of_reach r n = Client.transport true "timeout"

abbrev as_text : SettleMetadata → String
as_text m = "{}"

abbrev charge : Charge
charge =
    settle "r1" 1200
      (record { tokens_in = some 10; tokens_out = some 20; provider = "alpha"; latency_ms = 12 })

charge_task-kept_example :
    ((perform digits (λ s. none) (λ v. none) as_text out_of_reach charge ≡ none)
      × (charge_task digits (λ s. none) (λ v. none) as_text true true 4 out_of_reach charge []
          ≡ []))
    ⊎ ((e : VaultError) × (perform digits (λ s. none) (λ v. none) as_text out_of_reach charge
          ≡ some e)
        × (charge_task digits (λ s. none) (λ v. none) as_text true true 4 out_of_reach charge []
            ≡ record { id = 4; settlement = pending_of as_text charge; attempts = 0 } ∷ [])
        × ((later : Request → ℕ → Answer ℕ)
            → replay_one digits (λ s. none) (λ v. none) (λ n. later) 4 (pending_of as_text charge)
              ≡ perform digits (λ s. none) (λ v. none) as_text later charge))
charge_task-kept_example =
    charge_task-kept digits (λ s. none) (λ v. none) as_text 4 out_of_reach charge [] refl refl

cost_estimate-first_example :
    cost_estimate plain_json whole no_length request same router none
    ≡ priced plain_json whole no_length request (
        first (
          select_candidates same router "gpt-4o" none
            (user_prompt plain_json request)
            (some frontier)))
cost_estimate-first_example =
    cost_estimate-first plain_json whole no_length request same router none

-- Three characters of two bytes after an ASCII one: a character stands over the bytes 5 and 6.
abbrev pub accented : ApiKey
accented = record { secret = 65 ∷ 195 ∷ 169 ∷ 195 ∷ 169 ∷ 195 ∷ 169 ∷ 66 ∷ 67 ∷ 68 ∷ [] }

abbrev accented_provider : Provider ApiKey
accented_provider = record loaded_provider { api_key = some accented }

splits_accented : splits_character (some accented) ≡ true
splits_accented = refl

list_providers-panics_example :
    (list_providers (accented_provider ∷ []) ≡ none)
    ↔ Any (λ p. splits_character p.api_key ≡ true) (accented_provider ∷ [])
list_providers-panics_example = list_providers-panics (accented_provider ∷ [])

last_second-lost_example :
    matches same
      (record everything { until = "2025-01-01T00:00:00+00:00" })
      (record { log = log_of "c1"; stream_duration_ms = none })
    ≡ false
last_second-lost_example =
    last_second-lost same (record everything { until = "2025-01-01T00:00:00+00:00" })
      (record { log = log_of "c1"; stream_duration_ms = none }) (ascii "2025-01-01T00:00:00") 43
      (ascii "00:00") (omega arith) refl refl
