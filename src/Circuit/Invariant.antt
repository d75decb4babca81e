-- ===== src/Circuit/Invariant.antt =====
-- src/proxy/circuit_breaker.rs: what holds of a breaker after any history of calls.
use arbstr.Prelude.{
  ℕ, ◌+◌, ◌≤◌, ◌<◌, ◌≡◌, ◌≢◌, inl, inr, true, false, none, some, List, [], ◌∷◌, arith, Option-cases,
}
use arbstr.Circuit.Breaker.{
  closed, opened, half_open, rejected, probe_permit, Inner, Event, checks, fails, succeeds,
  probe_succeeds, probe_fails, failure_threshold, open_duration, new, step, check_state,
}

unfoldable pub run : List Event → Inner → Inner
run [] c = c
run (e ∷ es) c = run es (step e c)

pub record IsValid (c : Inner) : Type 0 where
  pub counted : c.state ≡ closed → c.failure_count < failure_threshold
  pub unprobed : c.state ≡ closed → c.probe_in_flight ≡ false
  pub stamped : c.state ≡ opened → c.opened_at ≢ none

pub new-IsValid : IsValid new
unfolding new
new-IsValid = ground arith

pub step-IsValid : (e : Event) {c : Inner} → IsValid c → IsValid (step e c)
unfolding step
step-IsValid (checks now) v = ground arith
step-IsValid (fails now e) v = ground arith
step-IsValid (succeeds now) v = ground arith
step-IsValid (probe_succeeds now) v = ground arith
step-IsValid (probe_fails now e) v = ground arith

pub run-IsValid : (es : List Event) {c : Inner} → IsValid c → IsValid (run es c)
unfolding run
run-IsValid [] v = v
run-IsValid (e ∷ es) v = run-IsValid es (step-IsValid e v)

-- The answer of a breaker that opened at `t`, at every time.
pub check_open_at :
    (c : Inner) (t now : ℕ)
    → c.state ≡ opened
    → c.opened_at ≡ some t
    → (now < t + open_duration → check_state now c ≡ (c, rejected))
      × (t + open_duration ≤ now
          → check_state now c
            ≡ (record c { state = half_open; probe_in_flight = true }, probe_permit))
unfolding check_state
check_open_at c t now s o = (λ h. ground arith, λ h. ground arith)

-- After any history of calls on a new breaker, if the breaker is open, then there is a time `t`
-- such that every check before `t` + 30 s is rejected and changes nothing, and every check
-- from then on moves the breaker to half-open with a probe in flight and grants the probe.
pub open-recovers :
    (es : List Event)
    → (run es new).state ≡ opened
    → (t : ℕ) × ((now : ℕ)
        → now < t + open_duration
        → check_state now (run es new) ≡ (run es new, rejected))
      × ((now : ℕ)
          → t + open_duration ≤ now
          → check_state now (run es new)
            ≡ (record (run es new) { state = half_open; probe_in_flight = true }, probe_permit))
open-recovers es s = elim (Option-cases (run es new).opened_at) [
  | inl e ↦ absurd ((run-IsValid es new-IsValid).stamped s e)
  | inr (t, e) ↦ (
    t,
    (λ now. (check_open_at (run es new) t now s e).0),
    (λ now. (check_open_at (run es new) t now s e).1),
  )
]
