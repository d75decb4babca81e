-- ===== src/Circuit/Breaker.antt =====
-- src/proxy/circuit_breaker.rs: one provider's circuit breaker, `CircuitBreakerInner`.
-- A method on `&mut self` returns the new record. `tokio::time::Instant` is a number of
-- milliseconds, and `Instant::now()` an argument. Counters are `u32` and wrap.
use arbstr.Prelude.{
  ℕ, ◌+◌, ◌-◌, ◌%◌, ◌^◌, Bool, true, false, Option, none, some, String, leb, if◌then◌else◌,
}

-- `FAILURE_THRESHOLD`.
abbrev pub failure_threshold : ℕ
failure_threshold = 3

-- `OPEN_DURATION`, 30 seconds.
abbrev pub open_duration : ℕ
open_duration = 30000

abbrev pub u32 : ℕ → ℕ
u32 n = n % 2 ^ 32

pub data CircuitState : Type 0 where
  closed opened half_open : CircuitState

pub data ProbeResult : Type 0 where
  pending success failed : ProbeResult

pub data CheckResult : Type 0 where
  allowed probe_permit wait_for_probe rejected : CheckResult

pub record LastError : Type 0 where
  pub error_type : String
  pub message : String

pub record Inner : Type 0 where
  pub state : CircuitState
  pub failure_count : ℕ
  pub opened_at : Option ℕ
  pub last_failure_time : Option ℕ
  pub last_success_time : Option ℕ
  pub last_error : Option LastError
  pub trip_count : ℕ
  pub probe_in_flight : Bool

-- `CircuitState::as_str`.
unfoldable pub as_str : CircuitState → String
as_str closed = "closed"
as_str opened = "open"
as_str half_open = "half_open"

unfoldable pub new : Inner
new = record {
  state = closed;
  failure_count = 0;
  opened_at = none;
  last_failure_time = none;
  last_success_time = none;
  last_error = none;
  trip_count = 0;
  probe_in_flight = false;
}

unfoldable pub try_acquire_probe : Inner → Inner × CheckResult
try_acquire_probe c =
    if c.probe_in_flight
    then (c, wait_for_probe)
    else (record c { probe_in_flight = true }, probe_permit)

-- The `Open` arm: `duration_since` saturates at 0, as `-` on ℕ does.
unfoldable pub check_open : ℕ → Option ℕ → Inner → Inner × CheckResult
unfolding try_acquire_probe
check_open now none c = (c, rejected)
check_open now (some opened_at) c =
    if leb open_duration (now - opened_at)
    then try_acquire_probe (record c { state = half_open; probe_in_flight = false })
    else (c, rejected)

check_at : ℕ → CircuitState → Inner → Inner × CheckResult
unfolding check_open try_acquire_probe
check_at now closed c = (c, allowed)
check_at now opened c = check_open now c.opened_at c
check_at now half_open c = try_acquire_probe c

unfoldable pub check_state : ℕ → Inner → Inner × CheckResult
unfolding check_at
check_state now c = check_at now c.state c

unfoldable pub record_failure : ℕ → LastError → Inner → Inner
record_failure now e c =
    let counted = record c {
      failure_count = u32 (c.failure_count + 1);
      last_failure_time = some now;
      last_error = some e;
    } in
    if leb failure_threshold counted.failure_count
    then record counted {
      state = opened;
      opened_at = some now;
      trip_count = u32 (c.trip_count + 1);
    }
    else counted

unfoldable pub record_success : ℕ → Inner → Inner
record_success now c = record c { failure_count = 0; last_success_time = some now }

unfoldable pub record_probe_success : ℕ → Inner → Inner
record_probe_success now c = record c {
  state = closed;
  failure_count = 0;
  probe_in_flight = false;
  last_success_time = some now;
}

unfoldable pub record_probe_failure : ℕ → LastError → Inner → Inner
record_probe_failure now e c = record c {
  state = opened;
  opened_at = some now;
  probe_in_flight = false;
  last_error = some e;
}

-- The five calls that the registry makes on a breaker, each at a time.
pub data Event : Type 0 where
  checks : ℕ → Event
  fails : ℕ → LastError → Event
  succeeds : ℕ → Event
  probe_succeeds : ℕ → Event
  probe_fails : ℕ → LastError → Event

unfoldable pub step : Event → Inner → Inner
unfolding check_state record_failure record_success record_probe_success record_probe_failure
step (checks now) c = (check_state now c).0
step (fails now e) c = record_failure now e c
step (succeeds now) c = record_success now c
step (probe_succeeds now) c = record_probe_success now c
step (probe_fails now e) c = record_probe_failure now e c
