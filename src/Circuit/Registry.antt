-- ===== src/Circuit/Registry.antt =====
-- src/proxy/circuit_breaker.rs: `CircuitBreakerRegistry`, with the map from names to breakers as an
-- association list. A method on `&self` that locks a breaker returns the new registry; one that
-- broadcasts a probe's result returns what it sends too.
use arbstr.Prelude.{ℕ, ◌<>◌, Option, none, some, String, List, [], ◌∷◌, map, lookup, insert, modify}
use mathlib.Core.Option
use arbstr.Circuit.Breaker.{
  CircuitState, CheckResult, allowed, probe_permit, wait_for_probe, rejected, ProbeResult, pending,
  success, failed, LastError, Inner, check_state,
}
use arbstr.Circuit.Breaker

abbrev pub Registry : Type 0
Registry = List (String × Inner)

pub data PermitType : Type 0 where
  normal probe : PermitType

pub record CircuitOpenError : Type 0 where
  pub provider : String
  pub reason : String
  pub trip_count : ℕ

-- What a task that awaits `rx.changed()` is woken with: a value sent after it subscribed, or the
-- end of the channel.
pub data Wake : Type 0 where
  changed : ProbeResult → Wake
  sender_dropped : Wake

-- The result of `acquire_permit`; `still_waiting` is a call that no decisive wake has reached.
pub data Acquired : Type 0 where
  granted : PermitType → Acquired
  refused : CircuitOpenError → Acquired
  still_waiting : Acquired

unfoldable pub new_registry : List String → Registry → Registry
new_registry [] r = r
new_registry (name ∷ names) r = new_registry names (insert name Breaker.new r)

abbrev pub reason_of : Option LastError → String
reason_of none = "unknown"
reason_of (some e) = e.error_type <> ": " <> e.message

-- `CircuitOpenError` from what was read under the lock.
abbrev pub open_error : String → Inner → CircuitOpenError
open_error name c = record {
  provider = name;
  reason = reason_of c.last_error;
  trip_count = c.trip_count;
}

abbrev pub closed_channel : String → Inner → CircuitOpenError
closed_channel name c = record {
  provider = name;
  reason = "probe watch channel closed";
  trip_count = c.trip_count;
}

-- The `loop` of the `WaitForProbe` arm.
unfoldable pub await_probe : String → Inner → List Wake → Acquired
await_probe name c [] = still_waiting
await_probe name c (sender_dropped ∷ ws) = refused (closed_channel name c)
await_probe name c (changed success ∷ ws) = granted normal
await_probe name c (changed failed ∷ ws) = refused (open_error name c)
await_probe name c (changed pending ∷ ws) = await_probe name c ws

-- The `match check_result`.
unfoldable pub answer : String → List Wake → Inner × CheckResult → Acquired
answer name ws (c, allowed) = granted normal
answer name ws (c, probe_permit) = granted probe
answer name ws (c, rejected) = refused (open_error name c)
answer name ws (c, wait_for_probe) = await_probe name c ws

acquire_known : ℕ → List Wake → String → Option Inner → Registry → Registry × Acquired
unfolding answer
acquire_known now ws name none r = (r, granted normal)
acquire_known now ws name (some c) r =
    (modify name (λ b. (check_state now b).0) r, answer name ws (check_state now c))

unfoldable pub acquire_permit : ℕ → List Wake → String → Registry → Registry × Acquired
unfolding acquire_known
acquire_permit now ws name r = acquire_known now ws name (lookup name r) r

unfoldable pub record_success : ℕ → String → Registry → Registry
record_success now name r = modify name (Breaker.record_success now) r

unfoldable pub record_failure : ℕ → String → LastError → Registry → Registry
record_failure now name e r = modify name (Breaker.record_failure now e) r

-- The result is sent only where the name has a breaker.
abbrev sent : ProbeResult → Option Inner → Option ProbeResult
sent p none = none
sent p (some _) = some p

unfoldable pub record_probe_success : ℕ → String → Registry → Registry × Option ProbeResult
record_probe_success now name r =
    (modify name (Breaker.record_probe_success now) r, sent success (lookup name r))

unfoldable pub record_probe_failure :
    ℕ → String → LastError → Registry → Registry × Option ProbeResult
record_probe_failure now name e r =
    (modify name (Breaker.record_probe_failure now e) r, sent failed (lookup name r))

pub record CircuitSnapshot : Type 0 where
  pub name : String
  pub state : CircuitState
  pub failure_count : ℕ

abbrev pub snapshot : String × Inner → CircuitSnapshot
snapshot (name, c) = record { name = name; state = c.state; failure_count = c.failure_count }

unfoldable pub all_states : Registry → List CircuitSnapshot
all_states = map snapshot

unfoldable pub state : String → Registry → Option CircuitState
state name r = Option.map (λ c. c.state) (lookup name r)

unfoldable pub failure_count : String → Registry → Option ℕ
failure_count name r = Option.map (λ c. c.failure_count) (lookup name r)

unfoldable pub trip_count : String → Registry → Option ℕ
trip_count name r = Option.map (λ c. c.trip_count) (lookup name r)
