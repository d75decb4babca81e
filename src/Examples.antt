-- ===== src/Examples.antt =====
-- Runs of the modelled code at concrete inputs.
pub mod Routing
pub mod Serving
pub mod Billing
pub mod Chat
pub mod Files
pub mod Listing
pub mod Server
pub mod Stats
pub mod Commands
use arbstr.Prelude.{
  ℕ, suc, ◌+◌, ◌*◌, ◌/◌, ◌≤◌, ◌≡◌, refl, sym, ◌≢◌, ◌⊎◌, inl, inr, Bool, true, false, not, ◌&&◌,
  Option, none, some, String, List, [], ◌∷◌, map, any, arith, lookup, insert, All,
}
use arbstr.Circuit.Breaker.{
  Inner, LastError, opened, closed, half_open, Event, checks, fails, succeeds, probe_succeeds,
  wait_for_probe, rejected, probe_permit, check_state, record_failure, open_duration, success,
}
use arbstr.Circuit.Breaker
use arbstr.Circuit.Invariant.{run, open-recovers, IsValid}
use arbstr.Circuit.Trip.{Outcome, settle_all, is_opened, is_failure, three_in_a_row, opened-three}
use arbstr.Circuit.Probe.{permits, probing, endings, permits-le}
use arbstr.Circuit.Registry.{
  Registry, new_registry, changed, acquire_permit, granted, refused, normal, probe, open_error,
}
use arbstr.Circuit.RegistryLaws
use arbstr.Circuit.RegistryLaws.{Call, after_all}
use arbstr.Circuit.Independence.{events_for, after_all-run}
use arbstr.Circuit.Permit.{Decided, acquire-one_of}
use arbstr.Circuit.Guard.{drops, end, ended, broadcast}
use arbstr.Circuit.Guard

abbrev pub timeout : LastError
timeout = record { error_type = "5xx"; message = "HTTP 503" }

-- Three failures in a row, the last at 30 ms.
abbrev pub failing : List Event
failing = fails 10 timeout ∷ fails 20 timeout ∷ fails 30 timeout ∷ []

abbrev tripped : Inner
tripped = record {
  state = opened;
  failure_count = 3;
  opened_at = some 30;
  last_failure_time = some 30;
  last_success_time = none;
  last_error = some timeout;
  trip_count = 1;
  probe_in_flight = false;
}

abbrev half : Inner
half = record tripped { state = half_open; probe_in_flight = true }

failing_trips : run failing Breaker.new ≡ tripped
unfolding run Breaker.step Breaker.new
failing_trips = refl

late_check : check_state 30030 tripped ≡ (half, probe_permit)
unfolding check_state
late_check = refl

early_check : check_state 30029 tripped ≡ (tripped, rejected)
unfolding check_state
early_check = refl

open-recovers_example :
    (t : ℕ) × ((now : ℕ)
      → suc now ≤ t + open_duration
      → check_state now (run failing Breaker.new) ≡ (run failing Breaker.new, rejected))
    × ((now : ℕ)
        → t + open_duration ≤ now
        → check_state now (run failing Breaker.new) ≡ (
          record (run failing Breaker.new) { state = half_open; probe_in_flight = true },
          probe_permit,
        ))
unfolding run Breaker.step Breaker.new
open-recovers_example = open-recovers failing refl

abbrev outcomes : List Outcome
outcomes =
    (1, some timeout) ∷ (2, none) ∷ (3, some timeout) ∷ (4, some timeout) ∷ (5, some timeout) ∷ []

opened-three_example : is_opened (settle_all outcomes Breaker.new).state ≡ true
opened-three_example = opened-three outcomes

abbrev probing_events : List Event
probing_events = checks 30030 ∷ checks 30031 ∷ probe_succeeds 30040 ∷ checks 30041 ∷ []

permits-le_example : permits probing_events tripped + probing tripped ≤ 1 + endings probing_events
permits-le_example = permits-le probing_events tripped

abbrev pair : Registry
pair = ("alpha", tripped) ∷ ("beta", tripped) ∷ []

abbrev calls : List Call
calls =
    RegistryLaws.acquires 30030 [] "alpha"
    ∷ RegistryLaws.fails 30031 "beta" timeout
    ∷ RegistryLaws.probe_succeeds 30032 "alpha"
    ∷ []

after_all-run_example :
    lookup "alpha" (after_all calls pair)
    ≡ some (run (checks 30030 ∷ probe_succeeds 30032 ∷ []) tripped)
unfolding lookup events_for
after_all-run_example = after_all-run calls pair "alpha" tripped refl

acquire-one_of_example :
    let (r', a) = acquire_permit 30050 (changed success ∷ []) "alpha" (("alpha", half) ∷ []) in
    ((half.state ≡ closed) × (lookup "alpha" r' ≡ some half) × (a ≡ granted normal))
    ⊎ ((probing half ≡ 0)
          × ((c' : Inner) × (lookup "alpha" r' ≡ some c') × (probing c' ≡ 1))
          × (a ≡ granted probe)
        ⊎ ((half.state ≡ opened)
              × (lookup "alpha" r' ≡ some half)
              × (a ≡ refused (open_error "alpha" half))
            ⊎ (probing half ≡ 1)
              × (lookup "alpha" r' ≡ some half)
              × Decided "alpha" half (changed success ∷ []) a))
unfolding lookup
acquire-one_of_example =
    acquire-one_of 30050 (changed success ∷ []) "alpha" (("alpha", half) ∷ []) half refl
