-- ===== src/Handlers/GateLeak.antt =====
-- src/proxy/handlers.rs: a probe permit that was taken before the vault gate refused.
use arbstr.Prelude.{ℕ, ◌≡◌, refl, subst, Bool, some, String, List, [], Option, lookup}
use arbstr.Circuit.Breaker.{Inner}
use arbstr.Circuit.Probe.{probing}
use arbstr.Circuit.Registry.{Registry, acquire_permit, still_waiting}
use arbstr.Router.Types.{SelectedProvider, Tier}
use arbstr.Router.Selector.{Router}
use arbstr.Router.Cost.{F64}
use arbstr.Request.Types.{ChatCompletionRequest}
use arbstr.Sse.Json.{Json, Utf8}
use arbstr.Vault.Client.{VaultResult, Reservation}
use arbstr.Handlers.Resolve.{ResolvedCandidates, resolved}
use arbstr.Handlers.Provider.{Upstream, Writer, Posted}
use arbstr.Handlers.Serving.{RequestContext, AppState, Clock, Texts, Served}
use arbstr.Handlers.ProbeLeak.{acquire-waits}
use arbstr.Handlers.Gate.{refuses}
use arbstr.Handlers.Gate.Clean.{some_resolved, vault_gate-IsClean, IsClean}
use arbstr.Handlers.Chat.{answers, serve, gate_of, after_resolution}

module _ (j : Json) (t : Utf8) (f : F64) (w : Writer j.Value f.Carrier) (x : Texts f.Carrier)
    {F : Type 0} (trim_end : String → String) (s : AppState) (clock : Clock) (accepts : ℕ → Bool)
    (cut : Option ℕ) (upstream : ℕ → Posted j.Value F → Upstream j.Value)
    (json_len : List j.Value → Option ℕ) (router : Router)
    (post : List ℕ → ℕ → VaultResult Reservation) (authorization : Option (List ℕ))
    (ctx : RequestContext) (request : ChatCompletionRequest j.Value F) (c : SelectedProvider)
    (cs : List SelectedProvider) (name : String) (score : Option f.Carrier) (tier : Tier) where
  open f use {Carrier}
  open j use {Value}

  abbrev rc : ResolvedCandidates Carrier
  rc = some_resolved c cs (some name) score tier

  -- If the resolution noted a probe permit that is still in flight, and the vault gate then refuses
  -- the request, then the handler answers with the refusal and reports nothing to the circuit
  -- breakers, so the breaker keeps its probe in flight: a request for that provider that nothing
  -- wakes waits, at every later time.
  pub refused-leaks :
      (r : Registry) (n : ℕ) (b : Inner) (served : Served Value Carrier)
      → lookup name r ≡ some b
      → probing b ≡ 1
      → gate_of j t f w x trim_end s clock accepts cut upstream json_len router post authorization
          ctx request rc
        ≡ refuses served
      → (after_resolution j t f w x trim_end s clock accepts cut upstream json_len router post
            authorization ctx request
            (resolved r n rc)
          ≡ answers r served)
        × (served.reports ≡ [])
        × ((later : ℕ) → (acquire_permit later [] name r).1 ≡ still_waiting)
  unfolding after_resolution serve
  refused-leaks r n b served found flying refused =
      let clean : IsClean {F = F} s (refuses served) = subst (IsClean s) refused (
        vault_gate-IsClean x.show json_len router post s ctx clock c cs (some name) score tier
          s.vault authorization request) in
      (rw refused refl, clean.2, λ later. acquire-waits later name r b found flying)
