-- ===== src/Examples/Routing.antt =====
-- Runs of the routing, of the reserve, of the handlers' resolution and of the retries.
use arbstr.Prelude.{
  ℕ, str_eq_iff, ◌≡◌, refl, ◌≢◌, false, not, ◌&&◌, none, some, String, List, [], ◌∷◌, map, any,
  lookup,
}
use mathlib.Core.Bool.{false≢true}
use arbstr.Router.Types.{Tier, local, standard, ProviderConfig, selected, ok}
use arbstr.Router.Sorting.{sort_by_key}
use arbstr.Router.Selector.{Router, find_policy, unique_by_name, select_candidates, select}
use arbstr.Router.Candidates.{forbidden, is_ok}
use arbstr.Router.Choice.{
  is_eligible, IsChoice, select_candidates-IsChoice, select_candidates-is_ok,
}
use arbstr.Circuit.Breaker.{Inner, opened, check_state}
use arbstr.Circuit.Registry.{Registry, new_registry}
use arbstr.Circuit.Probe.{probing}
use arbstr.Circuit.Registry.{acquire_permit, still_waiting}
use arbstr.Circuit.Guard
use arbstr.Handlers.Resolve.{World, filter_candidates, resolve_candidates}
use arbstr.Handlers.ResolveLaws.{IsSound, resolve_candidates-IsSound}
use arbstr.Handlers.ProbeLeak.{asked_both, two_probes-leak}

abbrev provider_of : String → ℕ → ℕ → Tier → ProviderConfig
provider_of name rate fee tier = record {
  name = name;
  url = "https://example.com/v1";
  api_key = none;
  models = "gpt-4o" ∷ [];
  input_rate = 5;
  output_rate = rate;
  base_fee = fee;
  tier = tier;
  auto_discover = false;
}

abbrev pub cheap : ProviderConfig
cheap = provider_of "cheap" 15 0 standard

abbrev pub dear : ProviderConfig
dear = provider_of "dear" 30 1 local

abbrev pub router : Router
router = record {
  providers = dear ∷ cheap ∷ record cheap { output_rate = 20 } ∷ [];
  policy_rules = [];
  default_strategy = "cheapest";
}

abbrev same : String → String
same s = s

two_candidates :
    select_candidates same router "gpt-4o" none none (some standard)
    ≡ ok (selected cheap ∷ selected dear ∷ [])
unfolding select_candidates unique_by_name sort_by_key selected
two_candidates = refl

select_candidates-IsChoice_example :
    (chosen : List ProviderConfig) × (selected cheap ∷ selected dear ∷ [] ≡ map selected chosen)
    × IsChoice (is_eligible same router "gpt-4o" none none (some standard)) router.providers chosen
select_candidates-IsChoice_example =
    select_candidates-IsChoice same router "gpt-4o" none none (some standard)
      (selected cheap ∷ selected dear ∷ []) two_candidates

select_candidates-is_ok_example :
    is_ok (select_candidates same router "gpt-4o" none none (some standard)) ≡ (
      not (forbidden "gpt-4o" (find_policy same router none none))
      && any (is_eligible same router "gpt-4o" none none (some standard)) router.providers)
select_candidates-is_ok_example =
    select_candidates-is_ok same router "gpt-4o" none none (some standard)

cheap-selected : select same router "gpt-4o" none none none ≡ ok (some (selected cheap))
unfolding select unique_by_name sort_by_key selected
cheap-selected = refl

-- Both breakers opened at 30 ms; the request comes 40 s later.
abbrev pub tripped : Inner
tripped = record {
  state = opened;
  failure_count = 3;
  opened_at = some 30;
  last_failure_time = some 30;
  last_success_time = none;
  last_error = none;
  trip_count = 1;
  probe_in_flight = false;
}

abbrev pub tripped_pair : Registry
tripped_pair = ("cheap", tripped) ∷ ("dear", tripped) ∷ []

abbrev pub quiet : World
quiet n = record { others = []; now = 40000; wakes = [] }

resolve_candidates-IsSound_example :
    IsSound
      (λ t. select_candidates same router "gpt-4o" none none (some t))
      local
      (resolve_candidates {Score = ℕ} same router quiet "gpt-4o" none none none local
        (new_registry ("cheap" ∷ []) []))
resolve_candidates-IsSound_example =
    resolve_candidates-IsSound {Score = ℕ} same router quiet "gpt-4o" none none none local
      (new_registry ("cheap" ∷ []) [])

cheap-ne-dear : (selected cheap).name ≢ (selected dear).name
unfolding selected
cheap-ne-dear e = false≢true ((str_eq_iff "cheap" "dear").1 e)

two_probes-leak_example :
    (filter_candidates quiet
        (selected cheap ∷ selected dear ∷ [])
        (record { registry = tripped_pair; asked = 0; filtered = []; probe_provider = none })
      ≡ some (record {
        registry = asked_both (quiet 0) (quiet 1) (selected cheap) (selected dear) tripped_pair;
        asked = 2;
        filtered = selected dear ∷ selected cheap ∷ [];
        probe_provider = some (selected dear).name;
      }))
    × ((now : ℕ) (e : Guard.Ending)
        → let r' =
            (Guard.end now e
              (Guard.new (selected dear).name)
              (asked_both (quiet 0) (quiet 1) (selected cheap) (selected dear) tripped_pair)).0 in
          (lookup (selected cheap).name r' ≡ some (check_state 40000 tripped).0)
          × (probing (check_state 40000 tripped).0 ≡ 1)
          × ((later : ℕ) → (acquire_permit later [] (selected cheap).name r').1 ≡ still_waiting))
unfolding lookup selected check_state
two_probes-leak_example =
    two_probes-leak quiet (selected cheap) (selected dear) tripped_pair tripped tripped
      cheap-ne-dear refl refl refl refl refl refl
