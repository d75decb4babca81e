-- ===== src/Circuit/Independence.antt =====
-- src/proxy/circuit_breaker.rs: the registry as a family of breakers that do not touch one another.
use arbstr.Prelude.{
  ◌≡◌, sym, ◌∙◌, subst, ◌⊎◌, inl, inr, some, String, List, [], ◌∷◌, arith, lookup, insert,
  lookup-insert, str_eq, str_eq_iff, if◌then◌else◌, Bool-cases,
}
use arbstr.Circuit.Breaker.{Inner}
use arbstr.Circuit.Breaker
use arbstr.Circuit.Invariant.{IsValid, new-IsValid, run, run-IsValid}
use arbstr.Circuit.Registry.{Registry, new_registry}
use arbstr.Circuit.RegistryLaws.{Call, subject, event, after, after_lem, after_all}

-- The events that a history of calls holds for one name.
unfoldable pub events_for : String → List Call → List Breaker.Event
events_for name [] = []
events_for name (c ∷ cs) =
    if str_eq (subject c) name then event c ∷ events_for name cs else events_for name cs

-- What one call does to the breaker of a name.
after-lookup :
    (c : Call) (r : Registry) (name : String) (b : Inner)
    → lookup name r ≡ some b
    → lookup name (after c r)
      ≡ some (if str_eq (subject c) name then Breaker.step (event c) b else b)
after-lookup c r name b h = elim (Bool-cases (str_eq (subject c) name)) [
  | inl hit ↦
      let same : subject c ≡ name = (str_eq_iff (subject c) name).0 hit in
      rw hit (
        subst (λ n. lookup n (after c r) ≡ some (Breaker.step (event c) b)) same
          ((after_lem c r).0 b (subst (λ n. lookup n r ≡ some b) (sym same) h)))
  | inr miss ↦ rw miss ((after_lem c r).1 name miss ∙ h)
]

-- After any history of calls on the registry, the breaker of a name is what the name's own events,
-- in their order, make of the breaker it had: calls for other providers have no effect on it.
pub after_all-run :
    (cs : List Call) (r : Registry) (name : String) (b : Inner)
    → lookup name r ≡ some b
    → lookup name (after_all cs r) ≡ some (run (events_for name cs) b)
unfolding after_all events_for run
after_all-run [] r name b h = h
after_all-run (c ∷ cs) r name b h = elim (Bool-cases (str_eq (subject c) name)) [
  | inl hit ↦
      rw (hit, events_for)
        (after_all-run cs (after c r) name (Breaker.step (event c) b)
          (rw hit at (after-lookup c r name b h)))
  | inr miss ↦
      rw (miss, events_for)
        (after_all-run cs (after c r) name b (rw miss at (after-lookup c r name b h)))
]

-- Every breaker of a registry meets the invariant.
abbrev pub RegistryIsValid : Registry → Type 0
RegistryIsValid r = (name : String) (b : Inner) → lookup name r ≡ some b → IsValid b

lookup_inserted :
    (n name : String) (r : Registry) (b : Inner)
    → lookup name (insert n Breaker.new r) ≡ some b
    → (b ≡ Breaker.new) ⊎ (lookup name r ≡ some b)
lookup_inserted n name r b h = ground (arith, lookup-insert n name Breaker.new r)

new_registry-keeps :
    (names : List String) (r : Registry)
    → RegistryIsValid r
    → RegistryIsValid (new_registry names r)
unfolding new_registry
new_registry-keeps [] r v = v
new_registry-keeps (n ∷ names) r v = new_registry-keeps names (insert n Breaker.new r) λ name b h.
    elim (lookup_inserted n name r b h) [
      | inl fresh ↦ subst IsValid (sym fresh) new-IsValid
      | inr old ↦ v name b old
    ]

lookup_empty : (name : String) (b : Inner) → lookup name [] ≡ some b → IsValid b
unfolding lookup
lookup_empty name b h = cc

pub new_registry-IsValid : (names : List String) → RegistryIsValid (new_registry names [])
new_registry-IsValid names = new_registry-keeps names [] lookup_empty

-- In a registry made for any list of provider names, after any history of calls, every breaker
-- that was there at the start still meets the invariant of a breaker.
after_all-IsValid :
    (names : List String) (cs : List Call) (name : String) (b : Inner)
    → lookup name (new_registry names []) ≡ some b
    → (b' : Inner) × (lookup name (after_all cs (new_registry names [])) ≡ some b') × IsValid b'
after_all-IsValid names cs name b h = (
  run (events_for name cs) b,
  after_all-run cs (new_registry names []) name b h,
  run-IsValid (events_for name cs) (new_registry-IsValid names name b h),
)
