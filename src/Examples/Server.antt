-- ===== src/Examples/Server.antt =====
-- Runs of the authentication, of the start of the server, of the score, of a breaker's diagram and of
-- the health.
use arbstr.Prelude.{
  ℕ, ◌-◌, ◌≡◌, ◌≢◌, ◌↔◌, ◌⊎◌, ◌<◌, refl, true, false, none, some, String, List, [], ◌∷◌, All, Any,
  ltb, lookup, if◌then◌else◌, ◌==◌,
}
use arbstr.Circuit.Breaker
use arbstr.Circuit.Breaker.{opened, half_open, Event, fails, checks, Inner}
use arbstr.Circuit.Invariant.{run}
use arbstr.Circuit.Diagram.{Walk, Enters, run-Walk_lem}
use arbstr.Router.Types.{standard, frontier, selected, ok}
use arbstr.Router.Score.{Floats, Weights, Patterns, min_text_len, score_complexity}
use arbstr.Router.ScoreLaws.{weight_total, score_complexity-starts}
use arbstr.Router.Selector.{select_candidates, unique_by_name}
use arbstr.Router.Sorting.{sort_by_key}
use arbstr.Router.Discovery.{Discovery, Endpoint, unreachable, discover_models}
use arbstr.Handlers.Chat.{starting_tier}
use arbstr.Server.Auth.{
  Access, create_router, handled, unauthorized, is_proxy_route, Opens, bearer,
  create_router-handled,
}
use arbstr.Server.Auth
use arbstr.Server.StartUp.{ServerSettings, run_server, run_server-candidates}
use arbstr.Sse.Observer.{ascii}
use arbstr.Examples.Serving.{plain_json, whole}
use arbstr.Api.Health.{health, IsOpen, IsClosed, health-status}
use arbstr.Examples.Routing.{cheap, dear, router, tripped_pair}
use arbstr.Examples.Chat.{request, same}
use arbstr.Examples.{timeout}

-- A vault, and a token that is set.
abbrev vaulted : Access
vaulted = record { auth_token = some (ascii "t"); has_vault = true }

-- With a vault the models are served without a credential.
served_without_token : create_router vaulted none Auth.list_models ≡ handled Auth.list_models
unfolding create_router
served_without_token = refl

refused_without_vault :
    create_router (record vaulted { has_vault = false }) (some (ascii "Bearer u")) Auth.list_models
    ≡ unauthorized
unfolding create_router Auth.auth_middleware
refused_without_vault = refl

create_router-handled_example :
    let a : Access = record vaulted { has_vault = false } in
    ((create_router a (some (bearer (ascii "t"))) Auth.chat_completions
        ≡ handled Auth.chat_completions)
      ↔ ((is_proxy_route Auth.chat_completions ≡ false)
          ⊎ Opens a.auth_token a.has_vault (some (bearer (ascii "t")))))
    × ((create_router a (some (bearer (ascii "t"))) Auth.chat_completions
          ≡ handled Auth.chat_completions)
        ⊎ (create_router a (some (bearer (ascii "t"))) Auth.chat_completions ≡ unauthorized))
create_router-handled_example =
    create_router-handled (record vaulted { has_vault = false }) (some (bearer (ascii "t")))
      Auth.chat_completions

abbrev settings : ServerSettings
settings = record {
  providers = router.providers;
  rules = [];
  default_strategy = "cheapest";
  has_vault = true;
}

abbrev no_endpoint : Discovery → Endpoint
no_endpoint d = unreachable "no route"

start_candidates :
    select_candidates same
      (run_server same no_endpoint settings true true).router
      "gpt-4o"
      none
      none
      (some standard)
    ≡ ok (selected cheap ∷ selected dear ∷ [])
unfolding select_candidates unique_by_name sort_by_key selected run_server discover_models
start_candidates = refl

run_server-candidates_example :
    All
      (λ p.
        lookup p.name (run_server same no_endpoint settings true true).circuit_breakers
        ≡ some Breaker.new)
      (selected cheap ∷ selected dear ∷ [])
run_server-candidates_example =
    run_server-candidates same no_endpoint settings true true same "gpt-4o" none none
      (some standard) (selected cheap ∷ selected dear ∷ []) start_candidates

-- Whole numbers in place of floats.
abbrev whole_more : Floats ℕ
whole_more = record {
  sub = λ a b. a - b;
  exp = λ a. 1;
  min = λ a b. if ltb a b then a else b;
  lt = ltb;
  is_zero = λ a. a == 0;
  per_token = 1;
  per_message = 1;
}

abbrev equal_weights : Weights ℕ
equal_weights = record {
  context_length = 1;
  code_blocks = 1;
  multi_file = 1;
  reasoning_keywords = 1;
  conversation_depth = 1;
  extra_keywords = "prove" ∷ [];
}

abbrev no_patterns : Patterns
no_patterns = record { code_blocks = λ s. 0; file_paths = λ s. []; file_exts = λ s. [] }

-- The conversation of the request, "hello", has five bytes.
abbrev five : String → ℕ
five s = 5

score_complexity-starts_example :
    let score =
      score_complexity whole whole_more equal_weights no_patterns same five plain_json
        request.messages in
    ((ltb score 0 ≡ false) × (ltb 1 score ≡ false))
    × ((request.messages ≡ [])
          ⊎ (5 < min_text_len)
          ⊎ (whole_more.is_zero (
                weight_total whole whole_more equal_weights no_patterns same five plain_json
                  request.messages)
              ≡ true)
        → (starting_tier ltb 0 0 score none ≡ (some 1, frontier))
          ↔ ((ltb 1 0 ≡ false) × (ltb 0 1 ≡ true)))
    × (starting_tier ltb 0 1 score none ≡ (some score, standard))
score_complexity-starts_example =
    score_complexity-starts whole whole_more equal_weights no_patterns same five plain_json 0 0
      request.messages refl refl refl

-- Three failures, and a check at the end of the pause.
abbrev recovering : List Event
recovering = fails 10 timeout ∷ fails 20 timeout ∷ fails 30 timeout ∷ checks 30030 ∷ []

run-Walk_lem_example :
    Walk Breaker.new.state recovering (run recovering Breaker.new).state
    × (Breaker.new.state ≢ (run recovering Breaker.new).state
        → Any (Enters (run recovering Breaker.new).state) recovering)
run-Walk_lem_example = run-Walk_lem recovering Breaker.new

health-status_example :
    ((health router.providers tripped_pair).status_code ≡ 503
      ↔ (tripped_pair ≢ []) × All IsOpen tripped_pair)
    × ((health router.providers tripped_pair).status ≡ "ok" ↔ All IsClosed tripped_pair)
health-status_example = health-status router.providers tripped_pair
