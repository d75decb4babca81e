-- ===== src/Handlers/ProbeLeak.antt =====
-- src/proxy/handlers.rs and src/proxy/circuit_breaker.rs: two probe permits in one request.
use arbstr.Prelude.{
  ℕ, suc, ◌≡◌, refl, sym, ◌∙◌, ◌≢◌, false, none, some, String, [], ◌∷◌, arith, lookup,
  lookup-modify_ne, str_eq, str_eq_ne,
}
use arbstr.Circuit.Breaker.{Inner, check_state, probe_permit, wait_for_probe}
use arbstr.Circuit.Probe.{probing}
use arbstr.Circuit.Registry.{
  Registry, still_waiting, acquire_permit, await_probe, record_probe_success, record_probe_failure,
}
use arbstr.Circuit.Permit.{acquire-by_check}
use arbstr.Circuit.RegistryLaws.{acquires, after_lem, after_all, after}
use arbstr.Circuit.Guard.{Ending, succeeds, fails, drops, end, dropped}
use arbstr.Circuit.Guard
use arbstr.Router.Types.{SelectedProvider}
use arbstr.Handlers.Resolve.{Filtered, World, Moment, filter_candidates, ask, take_permit}

-- The registry when both candidates have been asked for, with no other task in between.
abbrev pub asked_both : Moment → Moment → SelectedProvider → SelectedProvider → Registry → Registry
asked_both m n a b r =
    (acquire_permit n.now n.wakes b.name (acquire_permit m.now m.wakes a.name r).0).0

-- A guard's ending changes the breaker of its own provider only.
end-lookup_ne :
    (now : ℕ) (e : Ending) (name other : String) (r : Registry)
    → str_eq name other ≡ false
    → lookup other (end now e (Guard.new name) r).0 ≡ lookup other r
unfolding end Guard.new record_probe_success record_probe_failure
end-lookup_ne now succeeds name other r h = lookup-modify_ne name other _ r h
end-lookup_ne now (fails e) name other r h = lookup-modify_ne name other _ r h
end-lookup_ne now drops name other r h = lookup-modify_ne name other _ r h

waits_at : (now : ℕ) (c : Inner) → probing c ≡ 1 → check_state now c ≡ (c, wait_for_probe)
unfolding check_state
waits_at now c h = ground arith

permit-probing :
    (now : ℕ) (c : Inner) → (check_state now c).1 ≡ probe_permit → probing (check_state now c).0 ≡ 1
unfolding check_state
permit-probing now c h = ground arith

pub acquire-waits :
    (now : ℕ) (name : String) (r : Registry) (c : Inner)
    → lookup name r ≡ some c
    → probing c ≡ 1
    → (acquire_permit now [] name r).1 ≡ still_waiting
unfolding acquire_permit await_probe
acquire-waits now name r c h p = rw (h, acquire_permit, waits_at now c p)

ask-probe :
    (w : World) (c : SelectedProvider) (f : Filtered) (x : Inner)
    → lookup c.name f.registry ≡ some x
    → (w f.asked).others ≡ []
    → (check_state (w f.asked).now x).1 ≡ probe_permit
    → ask w c f
      ≡ some (record {
        registry = (acquire_permit (w f.asked).now (w f.asked).wakes c.name f.registry).0;
        asked = suc f.asked;
        filtered = c ∷ f.filtered;
        probe_provider = some c.name;
      })
unfolding ask after_all
ask-probe w c f x h alone permit =
    let got =
      ((acquire-by_check (w f.asked).now (w f.asked).wakes c.name f.registry x h).2 permit).0 in
    rw (alone, ask) (rw (got, take_permit) refl)

module _ (w : World) (a b : SelectedProvider) (r : Registry) (x y : Inner)
    (distinct : a.name ≢ b.name) (first : lookup a.name r ≡ some x)
    (second : lookup b.name r ≡ some y) (alone₀ : (w 0).others ≡ []) (alone₁ : (w 1).others ≡ [])
    (probes_a : (check_state (w 0).now x).1 ≡ probe_permit)
    (probes_b : (check_state (w 1).now y).1 ≡ probe_permit) where
  between : Registry
  between = (acquire_permit (w 0).now (w 0).wakes a.name r).0

  second_between : lookup b.name between ≡ some y
  unfolding between after
  second_between =
      (after_lem (acquires (w 0).now (w 0).wakes a.name) r).1 b.name
        (str_eq_ne a.name b.name distinct)
      ∙ second

  kept_probe : lookup a.name (asked_both (w 0) (w 1) a b r) ≡ some (check_state (w 0).now x).0
  unfolding between after
  kept_probe =
      (after_lem (acquires (w 1).now (w 1).wakes b.name) between).1 a.name
        (str_eq_ne b.name a.name (λ e. distinct (sym e)))
      ∙ (acquire-by_check (w 0).now (w 0).wakes a.name r x first).0

  both_filtered :
      filter_candidates w
        (a ∷ b ∷ [])
        (record { registry = r; asked = 0; filtered = []; probe_provider = none })
      ≡ some (record {
        registry = asked_both (w 0) (w 1) a b r;
        asked = 2;
        filtered = b ∷ a ∷ [];
        probe_provider = some b.name;
      })
  unfolding filter_candidates between
  both_filtered =
      rw
        (ask-probe w a (record { registry = r; asked = 0; filtered = []; probe_provider = none }) x
          first alone₀ probes_a)
        (rw
          (ask-probe w b
            (record {
              registry = between;
              asked = 1;
              filtered = a ∷ [];
              probe_provider = some a.name;
            })
            y second_between alone₁ probes_b)
          refl)

  -- If two candidates with different names are both due for a probe, and no other task calls in
  -- between, then both probe permits are taken, and only the second is noted. However the guard
  -- that is made for the noted one ends, the first breaker still has its probe in flight
  -- afterwards, and a request for that provider that nothing wakes waits, at every later time.
  pub two_probes-leak :
      (filter_candidates w
          (a ∷ b ∷ [])
          (record { registry = r; asked = 0; filtered = []; probe_provider = none })
        ≡ some (record {
          registry = asked_both (w 0) (w 1) a b r;
          asked = 2;
          filtered = b ∷ a ∷ [];
          probe_provider = some b.name;
        }))
      × ((now : ℕ) (e : Ending)
          → let r' = (end now e (Guard.new b.name) (asked_both (w 0) (w 1) a b r)).0 in
            (lookup a.name r' ≡ some (check_state (w 0).now x).0)
            × (probing (check_state (w 0).now x).0 ≡ 1)
            × ((later : ℕ) → (acquire_permit later [] a.name r').1 ≡ still_waiting))
  two_probes-leak = (
    both_filtered,
    λ now e.
        let stuck =
          end-lookup_ne now e b.name a.name (asked_both (w 0) (w 1) a b r)
            (str_eq_ne b.name a.name (λ same. distinct (sym same)))
          ∙ kept_probe in
        let out = permit-probing (w 0).now x probes_a in
        (stuck, out, λ later. acquire-waits later a.name _ _ stuck out),
  )
