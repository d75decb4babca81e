-- ===== src/Handlers/Chat.antt =====
-- src/proxy/handlers.rs: `chat_completions`, from the resolution through the vault gate to a path.
-- Each of the headers that are read is given if it is a text; `lower` is `str::to_lowercase`,
-- `trim_end` takes slashes off the end of a URL, and `json_len` is the length of written JSON.
use arbstr.Prelude.{
  ℕ, ◌<>◌, Bool, true, false, Option, none, some, String, List, [], str_eq, if◌then◌else◌,
}
use arbstr.Circuit.Registry.{Registry}
use arbstr.Router.Types.{
  Tier, local, standard, frontier, Error, error_text, no_tier_match, tier_text,
}
use arbstr.Router.Selector.{Router}
use arbstr.Router.Cost.{F64}
use arbstr.Router.Complexity.{score_to_max_tier}
use arbstr.Request.Types.{ChatCompletionRequest, user_prompt, get_or}
use arbstr.Sse.Json.{Json, Utf8}
use arbstr.Vault.Client.{VaultResult, Reservation}
use arbstr.Handlers.Resolve.{
  World, ResolvedCandidates, LoggedError, Resolution, resolved, responded, blocked, out_of_rounds,
  resolve_candidates,
}
use arbstr.Handlers.Response.{error_response, attach_arbstr_headers}
use arbstr.Handlers.Provider.{Upstream, Writer, Posted, upstream_request}
use arbstr.Handlers.Serving.{RequestContext, AppState, Clock, Texts, Served, log_error_to_db}
use arbstr.Handlers.StreamingPath.{handle_streaming_path}
use arbstr.Handlers.RetryPath.{handle_non_streaming_path}
use arbstr.Handlers.Gate.{Gate, passes, refuses, gate_panics, vault_gate}

-- The headers of a request.
pub record Headers : Type 0 where
  pub policy : Option String
  pub complexity : Option String
  pub authorization : Option (List ℕ)

-- The tier that the complexity header asks for; other texts are as good as none.
unfoldable pub override_tier : String → Option Tier
override_tier s =
    if str_eq s "high"
    then some frontier
    else if str_eq s "medium"
    then some standard
    else if str_eq s "low"
    then some local
    else none

unfoldable pub complexity_override : (String → String) → Option String → Option Tier
unfolding override_tier
complexity_override lower none = none
complexity_override lower (some s) = override_tier (lower s)

-- The score and the tier to start at; `score` is what the scorer gives, and `low` and `high` are
-- the thresholds.
unfoldable pub starting_tier :
    {C : Type 0} → (C → C → Bool) → C → C → C → Option Tier → Option C × Tier
starting_tier lt low high score (some tier) = (none, tier)
starting_tier lt low high score none = (some score, score_to_max_tier lt score low high)

-- The message that is logged with an error of the resolution.
unfoldable pub resolution_message : String → Error → String
unfolding error_text
resolution_message model (no_tier_match tier m) =
    "No providers match any tier for model '" <> model <> "'"
resolution_message model e = error_text e

-- How the handler ends: with a response, and the registry as the resolution left it; it waits for
-- ever for another request's probe; or it panics.
pub data Chat (V C : Type 0) : Type 0 where
  answers : Registry → Served V C → Chat V C
  waits : Chat V C
  panics : Chat V C

abbrev pub ending : {V C : Type 0} → Registry → Option (Served V C) → Chat V C
ending r none = panics
ending r (some served) = answers r served

module _ (j : Json) (t : Utf8) (f : F64) (w : Writer j.Value f.Carrier) (x : Texts f.Carrier)
    {F : Type 0} (trim_end : String → String) (s : AppState) (clock : Clock) (accepts : ℕ → Bool)
    (cut : Option ℕ) (upstream : ℕ → Posted j.Value F → Upstream j.Value) where
  open j use {Value}
  open f use {Carrier}

  -- The two paths, by the `stream` field of the request.
  unfoldable pub path :
      Bool
      → ResolvedCandidates Carrier
      → RequestContext
      → ChatCompletionRequest Value F
      → Option (Served Value Carrier)
  path true rc ctx request =
      handle_streaming_path j t f w x s ctx clock accepts rc
        (λ p. upstream 0 (upstream_request trim_end request p ctx.correlation_id true))
  path false rc ctx request =
      handle_non_streaming_path j f w x s ctx clock cut rc
        (λ n p. upstream n (upstream_request trim_end request p ctx.correlation_id false))

  -- The path, after the gate.
  unfoldable pub serve :
      ResolvedCandidates Carrier → Gate Value F Carrier → Option (Served Value Carrier)
  unfolding path
  serve rc gate_panics = none
  serve rc (refuses served) = some served
  serve rc (passes ctx request) = path ctx.is_streaming rc ctx request

  module _ (json_len : List Value → Option ℕ) (router : Router)
      (post : List ℕ → ℕ → VaultResult Reservation) (authorization : Option (List ℕ))
      (ctx : RequestContext) (request : ChatCompletionRequest Value F) where
    -- The gate for candidates that were resolved.
    abbrev pub gate_of : ResolvedCandidates Carrier → Gate Value F Carrier
    gate_of rc = vault_gate x.show json_len router post s ctx clock rc s.vault authorization request

    -- The response to an error of the resolution, with its row.
    unfoldable pub unresolved : Error → LoggedError Carrier → Served Value Carrier
    unresolved e l = record {
      response =
          attach_arbstr_headers x.is_header_value x.show x.fixed (error_response e)
            ctx.correlation_id clock.latency_ms none none ctx.is_streaming;
      logs =
          log_error_to_db s ctx clock none l.status_code (resolution_message ctx.model e)
            l.complexity_score (elim l.tier [ none ↦ none | some tier ↦ some (tier_text tier) ]);
      reports = [];
      charges = [];
    }

    unfoldable pub after_resolution : Resolution Carrier → Chat Value Carrier
    after_resolution (resolved r n rc) = ending r (serve rc (gate_of rc))
    after_resolution (responded r n e l) = answers r (unresolved e l)
    after_resolution blocked = waits
    after_resolution out_of_rounds = waits

  abbrev pub context : String → Headers → ChatCompletionRequest Value F → RequestContext
  context correlation_id headers request = record {
    correlation_id = correlation_id;
    model = request.model;
    policy_name = headers.policy;
    is_streaming = get_or request.stream false;
    reservation_id = none;
  }

  unfoldable pub chat_completions :
      (String → String)
      → (Carrier → Carrier → Bool)
      → Carrier
      → Carrier
      → Carrier
      → (List Value → Option ℕ)
      → Router
      → (List ℕ → ℕ → VaultResult Reservation)
      → World
      → Registry
      → String
      → Headers
      → ChatCompletionRequest Value F
      → Chat Value Carrier
  unfolding after_resolution
  chat_completions lower lt low high score json_len router post world r correlation_id headers
        request =
      let ctx = context correlation_id headers request in
      let (complexity_score, max_tier) =
        starting_tier lt low high score (complexity_override lower headers.complexity) in
      after_resolution json_len router post headers.authorization ctx request (
        resolve_candidates lower router world ctx.model ctx.policy_name (user_prompt j request)
          complexity_score max_tier r)
