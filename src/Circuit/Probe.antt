-- ===== src/Circuit/Probe.antt =====
-- src/proxy/circuit_breaker.rs: the single probe permit of a half-open breaker.
use arbstr.Prelude.{ℕ, ◌+◌, ◌≤◌, ◌≡◌, Bool, true, List, [], ◌∷◌, arith}
use arbstr.Circuit.Breaker.{
  CircuitState, half_open, CheckResult, probe_permit, wait_for_probe, Inner, Event, checks, fails,
  succeeds, probe_succeeds, probe_fails, step, check_state,
}
use arbstr.Circuit.Invariant.{run}

abbrev pub is_permit : CheckResult → ℕ
is_permit probe_permit = 1
is_permit _ = 0

-- The probe permits that an event hands out.
pub permits_of : Event → Inner → ℕ
permits_of (checks now) c = is_permit (check_state now c).1
permits_of _ c = 0

-- The probe permits that a history hands out.
unfoldable pub permits : List Event → Inner → ℕ
permits [] c = 0
permits (e ∷ es) c = permits_of e c + permits es (step e c)

-- The events that can end a probe: its two resolutions, and a failure, which may trip the breaker.
abbrev pub ends_probe : Event → ℕ
ends_probe (checks _) = 0
ends_probe (fails _ _) = 1
ends_probe (succeeds _) = 0
ends_probe (probe_succeeds _) = 1
ends_probe (probe_fails _ _) = 1

abbrev pub endings : List Event → ℕ
endings [] = 0
endings (e ∷ es) = ends_probe e + endings es

-- Whether a probe is out.
abbrev pub probing_at : CircuitState → Bool → ℕ
probing_at half_open true = 1
probing_at _ _ = 0

abbrev pub probing : Inner → ℕ
probing c = probing_at c.state c.probe_in_flight

permits-step :
    (e : Event) (c : Inner) → permits_of e c + probing c ≤ probing (step e c) + ends_probe e
unfolding permits_of step
permits-step (checks now) c = ground arith
permits-step (fails now e) c = ground arith
permits-step (succeeds now) c = ground arith
permits-step (probe_succeeds now) c = ground arith
permits-step (probe_fails now e) c = ground arith

permits-run :
    (es : List Event) (c : Inner) → permits es c + probing c ≤ probing (run es c) + endings es
unfolding permits run
permits-run [] c = omega arith
permits-run (e ∷ es) c = omega (arith, permits-step e c, permits-run es (step e c))

probing_le_one : (s : CircuitState) (b : Bool) → probing_at s b ≤ 1
probing_le_one s b = ground arith

-- Over any history, from any state, the probe permits that a breaker hands out, with the one that
-- may be out at the start, are at most one more than the events that can end a probe (a probe's
-- result, or a recorded failure).
pub permits-le : (es : List Event) (c : Inner) → permits es c + probing c ≤ 1 + endings es
permits-le es c =
    omega (arith, permits-run es c, probing_le_one (run es c).state (run es c).probe_in_flight)

-- A caller is told to wait only while a probe is out, and that answer changes nothing.
waits-probing :
    (now : ℕ) (c : Inner)
    → (check_state now c).1 ≡ wait_for_probe
    → (probing c ≡ 1) × ((check_state now c).0 ≡ c)
unfolding check_state
waits-probing now c h = ground arith
