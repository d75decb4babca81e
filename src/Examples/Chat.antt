-- ===== src/Examples/Chat.antt =====
-- Runs of the chat handler.
use arbstr.Prelude.{
  ltb, ℕ, ◌≤◌, ◌≡◌, refl, Bool, true, false, Option, none, some, String, List, [], ◌∷◌, All, length,
  lookup, arith,
}
use arbstr.Circuit.Breaker.{Inner, half_open}
use arbstr.Circuit.Registry.{acquire_permit, still_waiting}
use arbstr.Circuit.RegistryLaws.{after_all}
use arbstr.Router.Types.{standard, selected}
use arbstr.Router.Selector.{serves, frontier_rates}
use arbstr.Sse.Observer.{ascii}
use arbstr.Request.Types.{ChatCompletionRequest, text, Message, estimate_tokens, user_prompt}
use arbstr.Vault.Client
use arbstr.Vault.Client.{VaultResult, Reservation}
use arbstr.Vault.Reserve.{exact_msats}
use arbstr.Retry.Attempts
use arbstr.Handlers.Resolve.{World, ResolvedCandidates, resolved, resolve_candidates}
use arbstr.Handlers.Provider.{Upstream, Writer, Posted, answered}
use arbstr.Handlers.Serving.{RequestContext, AppState, Clock, Texts, Served}
use arbstr.Handlers.Rows.{rows}
use arbstr.Handlers.Gate.{
  refusal, agent_token, vault_gate, with_token, reserve_at, after_reserve, cap_tokens,
  reserve_rates,
}
use arbstr.Handlers.Gate.Clean.{some_resolved}
use arbstr.Handlers.Gate.Cover.{passes-covered}
use arbstr.Handlers.Chat.{
  Headers, complexity_override, starting_tier, answers, gate_of, after_resolution, path,
  chat_completions,
}
use arbstr.Handlers.ChatEnd.{IsAnswered, chat_completions-IsAnswered}
use arbstr.Handlers.ChatLaws.{Charged, after_resolution-Charged}
use arbstr.Handlers.GateLeak.{refused-leaks}
use arbstr.Handlers.ProbeEnd.{IsResolved, path-IsResolved, timed}
use arbstr.Examples.Serving.{plain_json, plain_utf8, whole, upstream, full_stream}
use arbstr.Examples.Routing.{router, cheap, tripped}

abbrev writer : Writer ℕ ℕ
writer = record { as_f64 = λ v. some v; set_field = λ k v u. u; write_error = λ v. none }

abbrev texts : Texts ℕ
texts = record {
  is_header_value = λ s. true;
  show = λ n. "0";
  fixed = λ d c. "0";
  status_text = λ n. "OK";
}

abbrev clock : Clock
clock = record { latency_ms = 12; timestamp = "2025-01-01T00:00:00Z"; stream_duration_ms = 40 }

abbrev billed : AppState
billed = record {
  db_writer = true;
  vault = some (record { default_reserve_tokens = 100; backpressure = false });
}

abbrev ctx : RequestContext
ctx = record {
  correlation_id = "c1";
  model = "gpt-4o";
  policy_name = none;
  is_streaming = false;
  reservation_id = none;
}

abbrev hello : Message ℕ
hello = record { role = "user"; content = text "hello"; name = none; extra = [] }

abbrev pub request : ChatCompletionRequest ℕ ℕ
request = record {
  model = "gpt-4o";
  messages = hello ∷ [];
  temperature = none;
  max_tokens = none;
  stream = none;
  stream_options = none;
  top_p = none;
  frequency_penalty = none;
  presence_penalty = none;
  stop = none;
  user = none;
  extra = [];
}

abbrev grant : List ℕ → ℕ → VaultResult Reservation
grant token amount = Client.ok (record { id = "r1"; reserved_msats = amount })

abbrev bearer : List ℕ
bearer = ascii "Bearer t"

abbrev good : ℕ → Posted ℕ ℕ → Upstream ℕ
good n p = answered 200 "" (Attempts.ok 1) full_stream

abbrev pub same : String → String
same s = s

abbrev all_taken : ℕ → Bool
all_taken n = true

abbrev pub no_length : List ℕ → Option ℕ
no_length vs = some 2

after_resolution-Charged_example :
    let rc = some_resolved upstream [] none none standard in
    (served : Served ℕ ℕ) × (after_resolution plain_json plain_utf8 whole writer texts same billed
        clock all_taken none good no_length router grant
        (some bearer)
        ctx
        request
        (resolved [] 0 rc)
      ≡ answers [] served)
    × Charged billed
        (gate_of plain_json plain_utf8 whole writer texts same billed clock all_taken none good
          no_length router grant
          (some bearer)
          ctx
          request
          rc)
        served.charges
    × (length served.logs ≡ rows billed)
after_resolution-Charged_example =
    after_resolution-Charged plain_json plain_utf8 whole writer texts billed clock all_taken same
      none good upstream [] none none standard no_length router grant (some bearer) ctx request [] 0

-- A breaker whose probe is in flight.
abbrev probed : Inner
probed = record tripped { state = half_open; probe_in_flight = true }

abbrev missing : ResolvedCandidates ℕ
missing = some_resolved (selected cheap) [] (some "cheap") none standard

abbrev unauthorized : Served ℕ ℕ
unauthorized =
    refusal billed ctx clock missing 401 "Missing bearer token for vault billing"
      "Authorization: Bearer <token> required" "authentication_error" "invalid_api_key"

refused-leaks_example :
    (after_resolution plain_json plain_utf8 whole writer texts same billed clock all_taken none good
        no_length router grant none ctx request
        (resolved (("cheap", probed) ∷ []) 0 missing)
      ≡ answers (("cheap", probed) ∷ []) unauthorized)
    × (unauthorized.reports ≡ [])
    × ((later : ℕ) → (acquire_permit later [] "cheap" (("cheap", probed) ∷ [])).1 ≡ still_waiting)
unfolding lookup vault_gate with_token agent_token
refused-leaks_example =
    refused-leaks plain_json plain_utf8 whole writer texts same billed clock all_taken none good
      no_length router grant none ctx request (selected cheap) [] "cheap" none standard
      (("cheap", probed) ∷ []) 0 probed unauthorized refl refl refl

path-IsResolved_example :
    (served : Served ℕ ℕ) × (path plain_json plain_utf8 whole writer texts same billed clock
        all_taken none good false missing ctx request
      ≡ some served)
    × IsResolved "cheap" (after_all (timed (λ n. 41000) 0 served.reports) (("cheap", probed) ∷ []))
unfolding lookup
path-IsResolved_example =
    path-IsResolved plain_json plain_utf8 whole writer texts same billed clock all_taken none good
      (selected cheap) [] "cheap" none standard ctx request false (λ n. 41000)
      (("cheap", probed) ∷ []) probed refl

abbrev capped : ChatCompletionRequest ℕ ℕ
capped = record request { max_tokens = some 100 }

passes-covered_example :
    (token : List ℕ) × (amount : ℕ) × (reservation : Reservation) × (agent_token (some bearer)
      ≡ some token)
    × (grant token amount ≡ Client.ok reservation)
    × ((record ctx { reservation_id = some "r1" }).reservation_id ≡ some reservation.id)
    × (capped.max_tokens ≡ some 100)
    × ((used_in used_out : ℕ)
        → used_in ≤ 1
        → used_out ≤ 100
        → All
            (λ p.
              serves "gpt-4o" p ≡ true
              → exact_msats used_in used_out p.input_rate p.output_rate p.base_fee ≤ amount)
            router.providers)
unfolding frontier_rates estimate_tokens vault_gate with_token reserve_at after_reserve agent_token
    cap_tokens reserve_rates
passes-covered_example =
    passes-covered texts.show no_length router grant billed ctx clock missing 100 request (5, 30, 1)
      false (some bearer) (record ctx { reservation_id = some "r1" }) capped refl (omega arith) refl

-- No other task runs, and no time passes.
abbrev alone : World
alone n = record { others = []; now = 0; wakes = [] }

abbrev plain_headers : Headers
plain_headers = record { policy = none; complexity = some "medium"; authorization = some bearer }

chat_completions-IsAnswered_example :
    IsAnswered billed
      (resolve_candidates same router alone "gpt-4o" none
        (user_prompt plain_json request)
        none
        standard
        [])
      (chat_completions plain_json plain_utf8 whole writer texts same billed clock all_taken none
        good same ltb 4 7 1 no_length router grant alone [] "c1" plain_headers request)
unfolding complexity_override starting_tier
chat_completions-IsAnswered_example =
    chat_completions-IsAnswered plain_json plain_utf8 whole writer texts billed clock all_taken same
      none good no_length router grant same ltb 4 7 1 alone [] "c1" plain_headers request
