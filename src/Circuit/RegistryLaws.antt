-- ===== src/Circuit/RegistryLaws.antt =====
-- src/proxy/circuit_breaker.rs: what the registry's calls do to the named breaker and to the rest.
use arbstr.Prelude.{
  ℕ, ◌≡◌, refl, sym, inl, inr, false, some, String, List, [], ◌∷◌, map, lookup, modify,
  lookup-modify_self, lookup-modify-none, lookup-modify_ne, modify_keys, str_eq, Option-cases,
}
use arbstr.Circuit.Breaker.{
  closed, opened, half_open, LastError, Inner, check_state, allowed, rejected, wait_for_probe,
  probe_permit, pending, success, failed,
}
use arbstr.Circuit.Breaker
use arbstr.Circuit.Registry.{
  Registry, Wake, acquire_permit, record_success, record_failure, record_probe_success,
  record_probe_failure,
}

-- The calls of the registry.
pub data Call : Type 0 where
  acquires : ℕ → List Wake → String → Call
  fails : ℕ → String → LastError → Call
  succeeds : ℕ → String → Call
  probe_succeeds : ℕ → String → Call
  probe_fails : ℕ → String → LastError → Call

unfoldable pub after : Call → Registry → Registry
after (acquires now ws name) r = (acquire_permit now ws name r).0
after (fails now name e) r = record_failure now name e r
after (succeeds now name) r = record_success now name r
after (probe_succeeds now name) r = (record_probe_success now name r).0
after (probe_fails now name e) r = (record_probe_failure now name e r).0

unfoldable pub after_all : List Call → Registry → Registry
after_all [] r = r
after_all (c ∷ cs) r = after_all cs (after c r)

-- The breaker that a call is about, and the event that it is for that breaker.
abbrev pub subject : Call → String
subject (acquires now ws name) = name
subject (fails now name e) = name
subject (succeeds now name) = name
subject (probe_succeeds now name) = name
subject (probe_fails now name e) = name

abbrev pub event : Call → Breaker.Event
event (acquires now ws name) = Breaker.checks now
event (fails now name e) = Breaker.fails now e
event (succeeds now name) = Breaker.succeeds now
event (probe_succeeds now name) = Breaker.probe_succeeds now
event (probe_fails now name e) = Breaker.probe_fails now e

-- Every call is a change in place of the breaker that it is about.
pub after-modify :
    (c : Call) (r : Registry) → after c r ≡ modify (subject c) (Breaker.step (event c)) r
unfolding after acquire_permit record_success record_failure record_probe_success
    record_probe_failure Breaker.step
after-modify (acquires now ws name) r = elim (Option-cases (lookup name r)) [
  | inl e ↦ rw (e, after, acquire_permit) (sym (lookup-modify-none name _ r e))
  | inr (c, e) ↦ rw (e, after, acquire_permit) refl
]
after-modify (fails now name e) r = refl
after-modify (succeeds now name) r = refl
after-modify (probe_succeeds now name) r = refl
after-modify (probe_fails now name e) r = refl

-- A call steps the breaker that it is about by its event, if there is one, and leaves every other
-- breaker, and the set of names, as they were.
pub after_lem :
    (c : Call) (r : Registry)
    → ((b : Inner)
        → lookup (subject c) r ≡ some b
        → lookup (subject c) (after c r) ≡ some (Breaker.step (event c) b))
      × ((name : String)
          → str_eq (subject c) name ≡ false
          → lookup name (after c r) ≡ lookup name r)
      × (map (λ e. e.0) (after c r) ≡ map (λ e. e.0) r)
after_lem c r = (
  (λ b h. rw (after-modify c r) (lookup-modify_self (subject c) _ r b h)),
  (λ name h. rw (after-modify c r) (lookup-modify_ne (subject c) name _ r h)),
  rw (after-modify c r) (modify_keys (subject c) _ r),
)
