-- ===== src/Circuit/Diagram.antt =====
-- src/proxy/circuit_breaker.rs: the transition diagram of a breaker, with the counters and times left
-- out, as a relation indexed by the states and the event between them.
use arbstr.Prelude.{ℕ, ◌≡◌, ◌≢◌, refl, inl, inr, ◌⊎◌, subst, sym, List, [], ◌∷◌, ◌∙◌, Any, arith}
use arbstr.Circuit.Breaker.{
  CircuitState, closed, opened, half_open, LastError, Inner, Event, checks, check_state, fails,
  succeeds, probe_succeeds, probe_fails, step,
}
use arbstr.Circuit.Invariant.{run}

-- `half_open` is entered by a check alone, `closed` by a probe's success alone.
pub data Edge : CircuitState → Event → CircuitState → Type 0 where
  allow : (now : ℕ) → Edge closed (checks now) closed
  reject : (now : ℕ) → Edge opened (checks now) opened
  recover : (now : ℕ) → Edge opened (checks now) half_open
  try_probe : (now : ℕ) → Edge half_open (checks now) half_open
  count : {s : CircuitState} (now : ℕ) (e : LastError) → Edge s (fails now e) s
  trip : {s : CircuitState} (now : ℕ) (e : LastError) → Edge s (fails now e) opened
  clear : {s : CircuitState} (now : ℕ) → Edge s (succeeds now) s
  close : {s : CircuitState} (now : ℕ) → Edge s (probe_succeeds now) closed
  reopen : {s : CircuitState} (now : ℕ) (e : LastError) → Edge s (probe_fails now e) opened

-- A walk over the edges of events in turn.
pub data Walk : CircuitState → List Event → CircuitState → Type 0 where
  here : {s : CircuitState} → Walk s [] s
  along :
      {s u : CircuitState} {e : Event} {es : List Event} (t : CircuitState)
      → Edge s e t
      → Walk t es u
      → Walk s (e ∷ es) u

-- Is an event a call that can enter the state?
pub data Enters : CircuitState → Event → Type 0 where
  by_probe_success : (now : ℕ) → Enters closed (probe_succeeds now)
  by_check : (now : ℕ) → Enters half_open (checks now)
  by_failure : (now : ℕ) (e : LastError) → Enters opened (fails now e)
  by_probe_failure : (now : ℕ) (e : LastError) → Enters opened (probe_fails now e)

check-target :
    (now : ℕ) (c : Inner)
    → (c.state ≢ opened → (check_state now c).0.state ≡ c.state)
      × (c.state ≡ opened
          → ((check_state now c).0.state ≡ opened) ⊎ ((check_state now c).0.state ≡ half_open))
unfolding check_state
check-target now c = (λ h. ground arith, λ h. ground arith)

check-Edge :
    (now : ℕ) (s : CircuitState) {t : CircuitState}
    → (s ≢ opened → t ≡ s)
    → (s ≡ opened → (t ≡ opened) ⊎ (t ≡ half_open))
    → Edge s (checks now) t
check-Edge now closed h g = subst (λ t. Edge closed (checks now) t) (sym (h (λ e. cc))) (allow now)
check-Edge now half_open h g =
    subst (λ t. Edge half_open (checks now) t) (sym (h (λ e. cc))) (try_probe now)
check-Edge now opened h g = elim (g refl) [
  | inl e ↦ subst (λ t. Edge opened (checks now) t) (sym e) (reject now)
  | inr e ↦ subst (λ t. Edge opened (checks now) t) (sym e) (recover now)
]

failure-target :
    (now : ℕ) (e : LastError) (c : Inner)
    → ((step (fails now e) c).state ≡ c.state) ⊎ ((step (fails now e) c).state ≡ opened)
unfolding step
failure-target now e c = ground arith

step-Edge : (e : Event) (c : Inner) → Edge c.state e (step e c).state
unfolding step
step-Edge (checks now) c = check-Edge now c.state (check-target now c).0 (check-target now c).1
step-Edge (fails now e) c = elim (failure-target now e c) [
  | inl h ↦ subst (λ t. Edge c.state (fails now e) t) (sym h) (count now e)
  | inr h ↦ subst (λ t. Edge c.state (fails now e) t) (sym h) (trip now e)
]
step-Edge (succeeds now) c = clear now
step-Edge (probe_succeeds now) c = close now
step-Edge (probe_fails now e) c = reopen now e

run-Walk : (es : List Event) (c : Inner) → Walk c.state es (run es c).state
unfolding run
run-Walk [] c = here
run-Walk (e ∷ es) c = along (step e c).state (step-Edge e c) (run-Walk es (step e c))

Edge-Enters : {s t : CircuitState} {e : Event} → Edge s e t → s ≢ t → Enters t e
Edge-Enters (allow now) h = absurd (h refl)
Edge-Enters (reject now) h = absurd (h refl)
Edge-Enters (recover now) h = by_check now
Edge-Enters (try_probe now) h = absurd (h refl)
Edge-Enters (count now e) h = absurd (h refl)
Edge-Enters (trip now e) h = by_failure now e
Edge-Enters (clear now) h = absurd (h refl)
Edge-Enters (close now) h = by_probe_success now
Edge-Enters (reopen now e) h = by_probe_failure now e

Enters-along : {s t u : CircuitState} {e : Event} → u ≡ t → Edge s e u → s ≢ t → Enters t e
Enters-along {e} g x h = subst (λ v. Enters v e) g (Edge-Enters x (λ r. h (r ∙ g)))

CircuitState-discrete : Discrete CircuitState
CircuitState-discrete = hlevel

Walk-Enters :
    {s : CircuitState} {es : List Event} (t : CircuitState)
    → Walk s es t
    → s ≢ t
    → Any (Enters t) es
Walk-Enters t here h = absurd (h refl)
Walk-Enters t (along u x w) h = elim (CircuitState-discrete u t) [
  | yes e ↦ inl (Enters-along e x h)
  | no g ↦ inr (Walk-Enters t w g)
]

-- For every sequence of events on a breaker: its states follow the edges of the diagram, and where
-- the last state is not the first, some event is one that can enter the last state: the success of a
-- probe for `closed`, a check for `half_open`, a failure or a probe's failure for `opened`.
pub run-Walk_lem :
    (es : List Event) (c : Inner)
    → Walk c.state es (run es c).state
      × (c.state ≢ (run es c).state → Any (Enters (run es c).state) es)
run-Walk_lem es c = (run-Walk es c, Walk-Enters (run es c).state (run-Walk es c))
