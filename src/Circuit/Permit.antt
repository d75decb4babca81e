-- ===== src/Circuit/Permit.antt =====
-- src/proxy/circuit_breaker.rs: what `acquire_permit` answers.
use arbstr.Prelude.{
  ℕ, ◌≡◌, refl, sym, ap, ◌∙◌, subst, ◌⊎◌, inl, inr, true, false, some, String, List, [], ◌∷◌, arith,
  lookup, lookup-modify_self,
}
use arbstr.Circuit.Breaker.{
  closed, opened, half_open, Inner, CheckResult, allowed, probe_permit, wait_for_probe, rejected,
  success, failed, pending, check_state,
}
use arbstr.Circuit.Probe.{probing}
use arbstr.Circuit.Registry.{
  Registry, Acquired, granted, refused, still_waiting, normal, probe, Wake, changed, sender_dropped,
  acquire_permit, await_probe, answer, open_error, closed_channel,
}

-- The first wake that carries a decision, as the answer that it stands for.
pub data Decided (name : String) (c : Inner) : List Wake → Acquired → Type 0 where
  by_success : {ws : List Wake} → Decided name c (changed success ∷ ws) (granted normal)
  by_failure : {ws : List Wake} → Decided name c (changed failed ∷ ws) (refused (open_error name c))
  by_close :
      {ws : List Wake} → Decided name c (sender_dropped ∷ ws) (refused (closed_channel name c))
  later :
      {ws : List Wake} {a : Acquired}
      → Decided name c ws a
      → Decided name c (changed pending ∷ ws) a
  undecided : Decided name c [] still_waiting

pub await_probe-Decided :
    (name : String) (c : Inner) (ws : List Wake) → Decided name c ws (await_probe name c ws)
unfolding await_probe
await_probe-Decided name c [] = undecided
await_probe-Decided name c (sender_dropped ∷ ws) = by_close
await_probe-Decided name c (changed success ∷ ws) = by_success
await_probe-Decided name c (changed failed ∷ ws) = by_failure
await_probe-Decided name c (changed pending ∷ ws) = later (await_probe-Decided name c ws)

acquire-answer :
    (now : ℕ) (ws : List Wake) (name : String) (r : Registry) (c : Inner)
    → lookup name r ≡ some c
    → (acquire_permit now ws name r).1 ≡ answer name ws (check_state now c)
unfolding acquire_permit
acquire-answer now ws name r c h = rw (h, acquire_permit)

acquire-lookup :
    (now : ℕ) (ws : List Wake) (name : String) (r : Registry) (c : Inner)
    → lookup name r ≡ some c
    → lookup name (acquire_permit now ws name r).0 ≡ some (check_state now c).0
unfolding acquire_permit
acquire-lookup now ws name r c h = rw (h, acquire_permit) (lookup-modify_self name _ r c h)

answer_cases :
    (name : String) (ws : List Wake) (x : Inner × CheckResult)
    → (x.1 ≡ allowed → answer name ws x ≡ granted normal)
      × (x.1 ≡ probe_permit → answer name ws x ≡ granted probe)
      × (x.1 ≡ rejected → answer name ws x ≡ refused (open_error name x.0))
      × (x.1 ≡ wait_for_probe → Decided name x.0 ws (answer name ws x))
unfolding answer
answer_cases name ws (c, allowed) = ((λ h. refl), (λ h. cc), (λ h. cc), (λ h. cc))
answer_cases name ws (c, probe_permit) = ((λ h. cc), (λ h. refl), (λ h. cc), (λ h. cc))
answer_cases name ws (c, rejected) = ((λ h. cc), (λ h. cc), (λ h. refl), (λ h. cc))
answer_cases name ws (c, wait_for_probe) =
    ((λ h. cc), (λ h. cc), (λ h. cc), (λ h. await_probe-Decided name c ws))

-- What `check_state` answers, by the state that it finds.
check_cases :
    (now : ℕ) (c : Inner)
    → (c.state ≡ closed → check_state now c ≡ (c, allowed))
      × ((check_state now c).1 ≡ allowed → c.state ≡ closed)
      × ((check_state now c).1 ≡ rejected → ((check_state now c).0 ≡ c) × (c.state ≡ opened))
      × ((check_state now c).1 ≡ probe_permit
          → ((check_state now c).0.state ≡ half_open)
            × ((check_state now c).0.probe_in_flight ≡ true)
            × ((c.state ≡ half_open → c.probe_in_flight ≡ false)))
unfolding check_state
check_cases now c = (ground arith, ground arith, ground arith, ground arith)

-- The answer of `acquire_permit`, by the answer of the breaker's own check.
pub acquire-by_check :
    (now : ℕ) (ws : List Wake) (name : String) (r : Registry) (c : Inner)
    → lookup name r ≡ some c
    → let (r', a) = acquire_permit now ws name r in
      let (c', k) = check_state now c in
      (lookup name r' ≡ some c')
      × (c.state ≡ closed → a ≡ granted normal)
      × (k ≡ probe_permit
          → (a ≡ granted probe)
            × (c'.state ≡ half_open)
            × (c'.probe_in_flight ≡ true)
            × (c.state ≡ half_open → c.probe_in_flight ≡ false))
      × (k ≡ rejected → (a ≡ refused (open_error name c)) × (c.state ≡ opened) × (c' ≡ c))
      × (k ≡ wait_for_probe → Decided name c' ws a)
acquire-by_check now ws name r c h =
    let x = check_state now c in
    let (as_allowed, as_probe, as_rejected, as_waiting) = answer_cases name ws x in
    let (on_closed, _, on_rejected, on_probe) = check_cases now c in
    let same = acquire-answer now ws name r c h in
    (
      acquire-lookup now ws name r c h,
      (λ s. same ∙ as_allowed (ap (λ y. y.1) (on_closed s))),
      (λ k. (same ∙ as_probe k, (on_probe k).0, (on_probe k).1, (on_probe k).2)),
      (λ k. (
        same ∙ as_rejected k ∙ ap (λ y. refused (open_error name y)) (on_rejected k).0,
        (on_rejected k).1,
        (on_rejected k).0,
      )),
      (λ k. subst (Decided name x.0 ws) (sym same) (as_waiting k)),
    )

-- The four answers of a check.
check-one_of :
    (now : ℕ) (c : Inner)
    → let (c', k) = check_state now c in
      ((c.state ≡ closed) × (c' ≡ c) × (k ≡ allowed))
      ⊎ ((probing c ≡ 0) × (probing c' ≡ 1) × (k ≡ probe_permit)
          ⊎ ((c.state ≡ opened) × (c' ≡ c) × (k ≡ rejected)
              ⊎ (probing c ≡ 1) × (c' ≡ c) × (k ≡ wait_for_probe)))
unfolding check_state
check-one_of now c = ground arith

-- For a provider that has a breaker, `acquire_permit` does one of four things: it grants a normal
-- permit at a closed breaker; it grants the probe where none is out, and then one is out; it
-- refuses at an open breaker, with that breaker's last error and trip count; or, where a probe
-- is out, it is decided by the first decisive wake. Only the grant of the probe changes the breaker.
pub acquire-one_of :
    (now : ℕ) (ws : List Wake) (name : String) (r : Registry) (c : Inner)
    → lookup name r ≡ some c
    → let (r', a) = acquire_permit now ws name r in
      ((c.state ≡ closed) × (lookup name r' ≡ some c) × (a ≡ granted normal))
      ⊎ ((probing c ≡ 0)
            × ((c' : Inner) × (lookup name r' ≡ some c') × (probing c' ≡ 1))
            × (a ≡ granted probe)
          ⊎ ((c.state ≡ opened) × (lookup name r' ≡ some c) × (a ≡ refused (open_error name c))
              ⊎ (probing c ≡ 1) × (lookup name r' ≡ some c) × Decided name c ws a))
acquire-one_of now ws name r c h =
    let (found, _, on_probe, on_rejected, on_wait) = acquire-by_check now ws name r c h in
    elim (check-one_of now c) [
      | inl (s, same, k) ↦ inl (
        s,
        found ∙ ap some same,
        acquire-answer now ws name r c h ∙ (answer_cases name ws (check_state now c)).0 k,
      )
      | inr (inl (out, after, k)) ↦
          inr (inl (out, ((check_state now c).0, found, after), (on_probe k).0))
      | inr (inr (inl (s, same, k))) ↦ inr (inr (inl (s, found ∙ ap some same, (on_rejected k).0)))
      | inr (inr (inr (out, same, k))) ↦ inr (
          inr (
            inr (
              out,
              found ∙ ap some same,
              subst (λ x. Decided name x ws (acquire_permit now ws name r).1) same (on_wait k),
            )))
    ]
