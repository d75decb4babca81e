-- ===== src/Handlers/Gate/Cover.antt =====
-- src/proxy/handlers.rs and src/proxy/vault.rs: what the vault has reserved when the gate passes.
use arbstr.Prelude.{
  ℕ, ◌+◌, ◌*◌, ◌^◌, ◌≤◌, ◌<◌, ◌≡◌, refl, sym, ap, ◌⊎◌, inl, inr, Bool, true, false, Option, none,
  some, String, List, All, Option-cases,
}
use arbstr.Router.Selector.{Router, serves, frontier_rates}
use arbstr.Request.Types.{ChatCompletionRequest, estimate_tokens, get_or}
use arbstr.Vault.Client.{VaultResult, ok, err, VaultError, Reservation}
use arbstr.Vault.Reserve.{estimate_reserve_msats, exact_msats, reserve-covers}
use arbstr.Handlers.Resolve.{ResolvedCandidates}
use arbstr.Handlers.Serving.{RequestContext, AppState, Clock}
use arbstr.Handlers.Gate.{
  Gate, passes, agent_token, cap_tokens, vault_gate, reserve_rates, after_reserve, reserve_at,
  with_token,
}

abbrev reservation_in : {V F C : Type 0} → Gate V F C → Option String
reservation_in (passes ctx request) = ctx.reservation_id
reservation_in _ = none

abbrev cap_in : {V F C : Type 0} → Gate V F C → Option ℕ
cap_in (passes ctx request) = request.max_tokens
cap_in _ = none

Result-cases :
    {A : Type 0} (a : VaultResult A) → ((r : A) × (a ≡ ok r)) ⊎ ((e : VaultError) × (a ≡ err e))
Result-cases (ok r) = inl (r, refl)
Result-cases (err e) = inr (e, refl)

module _ {V F C : Type 0} (show : ℕ → String) (json_len : List V → Option ℕ) (router : Router)
    (post : List ℕ → ℕ → VaultResult Reservation) (s : AppState) (ctx : RequestContext)
    (clock : Clock) (resolved : ResolvedCandidates C) (default : ℕ)
    (request : ChatCompletionRequest V F) (rates : ℕ × ℕ × ℕ) where
  -- The request's estimates, the output's being its cap.
  abbrev pub est_in : ℕ
  est_in = (estimate_tokens json_len request default).0

  abbrev pub cap : ℕ
  cap = get_or request.max_tokens default

  -- If the gate of a vault passes a request, for a model with frontier rates at which nothing
  -- overflows, then the request that goes on has an output cap, and the vault has made the
  -- reservation that it goes on with, for an amount that covers the exact cost at every provider
  -- that serves the model, for at most the estimated input and the cap.
  pub passes-covered :
      (backpressure : Bool) (authorization : Option (List ℕ)) (ctx' : RequestContext)
      (request' : ChatCompletionRequest V F)
      → frontier_rates router ctx.model ≡ some rates
      → est_in * rates.0 * 1000 + cap * rates.1 * 1000 + rates.2 * 1000 < 2 ^ 64
      → vault_gate show json_len router post s ctx clock resolved
          (some (record { default_reserve_tokens = default; backpressure = backpressure }))
          authorization
          request
        ≡ passes ctx' request'
      → (token : List ℕ) × (amount : ℕ) × (reservation : Reservation) × (agent_token authorization
          ≡ some token)
        × (post token amount ≡ ok reservation)
        × (ctx'.reservation_id ≡ some reservation.id)
        × (request'.max_tokens ≡ some cap)
        × ((used_in used_out : ℕ)
            → used_in ≤ est_in
            → used_out ≤ cap
            → All
                (λ p.
                  serves ctx.model p ≡ true
                  → exact_msats used_in used_out p.input_rate p.output_rate p.base_fee ≤ amount)
                router.providers)
  unfolding vault_gate with_token reserve_at after_reserve reserve_rates cap_tokens estimate_tokens
  passes-covered true authorization ctx' request' found fits passed = cc
  passes-covered false authorization ctx' request' found fits passed =
      elim (Option-cases (agent_token authorization)) [
        | inl n ↦ let p = rw n at passed in cc
        | inr (token, n) ↦
            let p = rw (n, found) at passed in
            let amount = estimate_reserve_msats est_in cap rates.0 rates.1 rates.2 in
            elim (Result-cases (post token amount)) [
              | inl (reservation, e) ↦
                  let q = rw e at p in
                  (
                    token,
                    amount,
                    reservation,
                    n,
                    e,
                    sym (ap reservation_in q),
                    sym (ap cap_in q),
                    λ used_in used_out h k.
                        reserve-covers router ctx.model rates est_in cap used_in used_out found fits
                          h k,
                  )
              | inr (x, e) ↦ let q = rw e at p in cc
            ]
      ]
