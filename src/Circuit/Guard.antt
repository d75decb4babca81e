-- ===== src/Circuit/Guard.antt =====
-- src/proxy/circuit_breaker.rs: `ProbeGuard`, and how a guard's life can end.
use arbstr.Prelude.{
  ℕ, ◌≡◌, refl, ◌≢◌, Bool, true, false, Option, none, some, String, List, [], ◌∷◌, ◌++◌, lookup,
  lookup-modify_self, if◌then◌else◌,
}
use arbstr.Circuit.Breaker.{
  closed, opened, half_open, Inner, LastError, ProbeResult, success, failed,
}
use arbstr.Circuit.Breaker
use arbstr.Circuit.Registry.{Registry, record_probe_success, record_probe_failure}

pub record ProbeGuard : Type 0 where
  pub provider : String
  pub resolved : Bool

unfoldable pub new : String → ProbeGuard
new provider = record { provider = provider; resolved = false }

abbrev pub dropped : LastError
dropped = record { error_type = "dropped"; message = "probe dropped without resolution" }

abbrev pub results : Option ProbeResult → List ProbeResult
results none = []
results (some p) = p ∷ []

abbrev sends : Registry × Option ProbeResult → Registry × List ProbeResult
sends (r, p) = (r, results p)

-- `Drop for ProbeGuard`.
unfoldable pub drop : ℕ → ProbeGuard → Registry → Registry × List ProbeResult
drop now g r = if g.resolved then (r, []) else sends (record_probe_failure now g.provider dropped r)

-- `self` is consumed, so the guard is dropped when the method returns.
abbrev then_drop : ℕ → ProbeGuard → Registry × List ProbeResult → Registry × List ProbeResult
then_drop now g (r, ps) = let (r', qs) = drop now g r in (r', ps ++ qs)

unfoldable pub guard_success : ℕ → ProbeGuard → Registry → Registry × List ProbeResult
unfolding drop
guard_success now g r =
    then_drop now (record g { resolved = true }) (sends (record_probe_success now g.provider r))

unfoldable pub guard_failure : ℕ → LastError → ProbeGuard → Registry → Registry × List ProbeResult
unfolding drop
guard_failure now e g r =
    then_drop now (record g { resolved = true }) (sends (record_probe_failure now g.provider e r))

-- The three ways in which a guard's life can end.
pub data Ending : Type 0 where
  succeeds : Ending
  fails : LastError → Ending
  drops : Ending

unfoldable pub end : ℕ → Ending → ProbeGuard → Registry → Registry × List ProbeResult
unfolding guard_success guard_failure drop
end now succeeds g r = guard_success now g r
end now (fails e) g r = guard_failure now e g r
end now drops g r = drop now g r

-- The breaker and the broadcast that each ending leaves.
abbrev pub ended : ℕ → Ending → Inner → Inner
ended now succeeds c = Breaker.record_probe_success now c
ended now (fails e) c = Breaker.record_probe_failure now e c
ended now drops c = Breaker.record_probe_failure now dropped c

abbrev pub broadcast : Ending → ProbeResult
broadcast succeeds = success
broadcast _ = failed

-- However the life of a new guard for a provider with a breaker ends, exactly one probe result is
-- sent, the breaker records exactly that result, and it is afterwards not half-open and has no
-- probe in flight: it is closed after `success`, and open after `failure` or a plain drop.
pub end-resolves :
    (now : ℕ) (e : Ending) (name : String) (r : Registry) (c : Inner)
    → lookup name r ≡ some c
    → ((end now e (new name) r).1 ≡ broadcast e ∷ [])
      × (lookup name (end now e (new name) r).0 ≡ some (ended now e c))
      × ((ended now e c).probe_in_flight ≡ false)
      × ((ended now e c).state ≢ half_open)
unfolding end new record_probe_success record_probe_failure Breaker.record_probe_success
    Breaker.record_probe_failure
end-resolves now succeeds name r c h =
    (rw (h, results), lookup-modify_self name _ r c h, refl, λ e. cc)
end-resolves now (fails e) name r c h = (rw h refl, lookup-modify_self name _ r c h, refl, λ e. cc)
end-resolves now drops name r c h = (rw h refl, lookup-modify_self name _ r c h, refl, λ e. cc)
