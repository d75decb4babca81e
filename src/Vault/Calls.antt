-- ===== src/Vault/Calls.antt =====
-- src/proxy/vault.rs: what `call_with_retry` does over all answers of the vault.
use arbstr.Prelude.{ℕ, zero, suc, ◌≡◌, refl, ◌⊎◌, inl, inr, String, [], ◌∷◌}
use arbstr.Vault.Client.{
  Answer, VaultResult, err, VaultError, Attempt, returns, retries, attempt, after_attempt,
  call_with_retry,
}

Attempt-cases :
    {V : Type 0} (a : Attempt V)
    → ((r : VaultResult V) × (a ≡ returns r)) ⊎ ((e : VaultError) × (a ≡ retries e))
Attempt-cases (returns r) = inl (r, refl)
Attempt-cases (retries e) = inr (e, refl)

module _ (show : ℕ → String) {V : Type 0} (post : ℕ → Answer V) where
  -- Every request before the `n`-th failed in a way that is tried again.
  abbrev pub AllRetried : ℕ → Type 0
  AllRetried zero = Unit
  AllRetried (suc n) = AllRetried n × ((e : VaultError) × (attempt show (post n) ≡ retries e))

  -- How the call ends: at the first answer that is not tried again, or after the last request with
  -- that request's error.
  pub data Ends : VaultResult V → ℕ → Type 0 where
    decided :
        {r : VaultResult V} {n : ℕ}
        → AllRetried n
        → attempt show (post n) ≡ returns r
        → Ends r (suc n)
    exhausted :
        {e : VaultError} {n : ℕ}
        → AllRetried n
        → attempt show (post n) ≡ retries e
        → Ends (err e) (suc n)

  -- For any answers of the vault, the call returns after one to three requests. Its result is that
  -- of the first answer that is not tried again, if one of the three is none such, and else the
  -- error of the third; the delays are 200 ms before the second request and 400 ms before the third.
  pub call_with_retry-Ends :
      let (r, delays, sent) = call_with_retry show post in
      Ends r sent
      × ((sent ≡ 1) × (delays ≡ [])
          ⊎ ((sent ≡ 2) × (delays ≡ 200 ∷ []) ⊎ ((sent ≡ 3) × (delays ≡ 200 ∷ 400 ∷ []))))
  unfolding call_with_retry
  call_with_retry-Ends = elim (Attempt-cases (attempt show (post 0))) [
    | inl (r, e) ↦ rw (e, after_attempt) (decided tt e, inl (refl, refl))
    | inr (x, e) ↦
        rw (e, after_attempt)
          (elim (Attempt-cases (attempt show (post 1))) [
            | inl (r, f) ↦ rw (f, after_attempt) (decided (tt, (x, e)) f, inr (inl (refl, refl)))
            | inr (y, f) ↦
                rw (f, after_attempt)
                  (elim (Attempt-cases (attempt show (post 2))) [
                    | inl (r, g) ↦
                        rw (g, after_attempt)
                          (decided ((tt, (x, e)), (y, f)) g, inr (inr (refl, refl)))
                    | inr (z, g) ↦
                        rw (g, after_attempt)
                          (exhausted ((tt, (x, e)), (y, f)) g, inr (inr (refl, refl)))
                  ])
          ])
  ]
