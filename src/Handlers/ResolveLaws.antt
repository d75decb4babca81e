-- ===== src/Handlers/ResolveLaws.antt =====
-- src/proxy/handlers.rs: what `resolve_candidates` ends with.
use arbstr.Prelude.{
  ℕ, zero, suc, ◌+◌, ◌≤◌, ◌≡◌, refl, inl, inr, ◌≢◌, Option, none, some, String, List, [], ◌∷◌, ◌++◌,
  arith, All, Any, All-mono,
}
use arbstr.Circuit.Registry.{Registry, Acquired, granted, refused, still_waiting, normal, probe}
use arbstr.Router.Types.{
  Tier, local, standard, frontier, rank, escalate, SelectedProvider, Error, Result, ok, err,
}
use arbstr.Router.Types
use arbstr.Router.Selector.{Router, select_candidates}
use arbstr.Handlers.Resolve.{
  Filtered, World, take_permit, ask, and_then, or_escalate, after_filter, after_select,
  filter_candidates, Resolution, resolved, responded, blocked, out_of_rounds, resolve_rounds,
  resolve_candidates,
}

-- A provider whose probe permit is noted stands first.
abbrev pub ProbeFirst : Option String → List SelectedProvider → Type 0
ProbeFirst none cs = Unit
ProbeFirst (some n) [] = ⊥
ProbeFirst (some n) (c ∷ cs) = c.name ≡ n

-- Every entry is one of the list.
abbrev pub Among : List SelectedProvider → List SelectedProvider → Type 0
Among out cs = All (λ c. Any (λ d. c ≡ d) out) cs

abbrev pub FilteredFrom : List SelectedProvider → Filtered → Type 0
FilteredFrom out f = ProbeFirst f.probe_provider f.filtered × Among out f.filtered

ProbeFirst-append :
    (p : Option String) (cs ds : List SelectedProvider) → ProbeFirst p cs → ProbeFirst p (cs ++ ds)
ProbeFirst-append none cs ds h = tt
ProbeFirst-append (some n) [] ds h = absurd h
ProbeFirst-append (some n) (c ∷ cs) ds h = h

Among-append :
    (out cs ds : List SelectedProvider) → Among out cs → Among out ds → Among out (cs ++ ds)
Among-append out [] ds a b = b
Among-append out (c ∷ cs) ds a b = (a.0, Among-append out cs ds a.1 b)

-- What holds of the filtered candidates of a call that was not blocked.
abbrev pub Holds : (Filtered → Type 0) → Option Filtered → Type 0
Holds P none = Unit
Holds P (some f) = P f

take_permit-From :
    (out : List SelectedProvider) (c : SelectedProvider) (a : Acquired) (r : Registry)
    (f : Filtered)
    → Any (λ d. c ≡ d) out
    → FilteredFrom out f
    → Holds (FilteredFrom out) (take_permit c a r f)
take_permit-From out c (granted normal) r f m h = (
  ProbeFirst-append f.probe_provider f.filtered (c ∷ []) h.0,
  Among-append out f.filtered (c ∷ []) h.1 (m, tt),
)
take_permit-From out c (granted probe) r f m h = (refl, (m, h.1))
take_permit-From out c (refused e) r f m h = h
take_permit-From out c still_waiting r f m h = tt

Holds-and_then :
    (P Q : Filtered → Type 0) (x : Option Filtered) (k : Filtered → Option Filtered)
    → Holds P x
    → ((f : Filtered) → P f → Holds Q (k f))
    → Holds Q (and_then x k)
Holds-and_then P Q none k h step = tt
Holds-and_then P Q (some f) k h step = step f h

filter-From :
    (w : World) (out cs : List SelectedProvider) (f : Filtered)
    → Among out cs
    → FilteredFrom out f
    → Holds (FilteredFrom out) (filter_candidates w cs f)
unfolding filter_candidates ask
filter-From w out [] f m h = h
filter-From w out (c ∷ cs) f m h =
    Holds-and_then (FilteredFrom out) (FilteredFrom out) (ask w c f) (filter_candidates w cs)
      (take_permit-From out c _ _ f m.0 h) (λ f' h'. filter-From w out cs f' m.1 h')

Among-self : (cs : List SelectedProvider) → Among cs cs
Among-self [] = tt
Among-self (c ∷ cs) = (inl refl, All-mono _ _ cs (λ d h. inr h) (Among-self cs))

-- What a resolution promises: it is no end of rounds; and resolved candidates are some, at a tier
-- not below `t`, all among those that are selected at that tier, with the noted probe first.
abbrev pub IsSound :
    {Score : Type 0} → (Tier → Result (List SelectedProvider)) → Tier → Resolution Score → Type 0
IsSound select_at t out_of_rounds = ⊥
IsSound select_at t blocked = Unit
IsSound select_at t (responded r n e row) = Unit
IsSound select_at t (resolved r n c) =
    (c.candidates ≢ [])
    × (rank t ≤ rank c.tier)
    × ProbeFirst c.probe_provider c.candidates
    × ((out : List SelectedProvider) × (select_at c.tier ≡ ok out) × Among out c.candidates)

module _ {Score : Type 0} (score : Option Score) (model : String) (w : World)
    (select_at : Tier → Result (List SelectedProvider)) where
  escalate-rank : (t t' : Tier) → escalate t ≡ some t' → rank t' ≡ suc (rank t)
  unfolding escalate
  escalate-rank t t' h = ground arith

  -- `next` is sound from the tier above.
  abbrev NextIsSound : Tier → (ℕ → Registry → Tier → Resolution Score) → Type 0
  NextIsSound t next =
      (n : ℕ) (r : Registry) (t' : Tier) → escalate t ≡ some t' → IsSound select_at t' (next n r t')

  IsSound-weaken :
      (t t' : Tier) (x : Resolution Score)
      → rank t ≤ rank t'
      → IsSound select_at t' x
      → IsSound select_at t x
  IsSound-weaken t t' out_of_rounds h s = s
  IsSound-weaken t t' blocked h s = tt
  IsSound-weaken t t' (responded r n e row) h s = tt
  IsSound-weaken t t' (resolved r n c) h s = (s.0, omega arith, s.2, s.3)

  escalated :
      (next : Tier → Resolution Score) (r : Registry) (n : ℕ) (t : Tier) (status : ℕ) (e : Error)
      → ((t' : Tier) → escalate t ≡ some t' → IsSound select_at t' (next t'))
      → (o : Option Tier) → escalate t ≡ o
      → IsSound select_at t (or_escalate score model w next r n t o status e)
  unfolding or_escalate
  escalated next r n t status e sound none up = tt
  escalated next r n t status e sound (some t') up =
      IsSound-weaken t t' (next t') (omega (arith, escalate-rank t t' up)) (sound t' up)

  filtered-IsSound :
      (next : ℕ → Registry → Tier → Resolution Score) (t : Tier) (out : List SelectedProvider)
      → NextIsSound t next
      → select_at t ≡ ok out
      → (r : Registry) (n : ℕ) (cs : List SelectedProvider) (p : Option String)
      → FilteredFrom out (record { registry = r; asked = n; filtered = cs; probe_provider = p })
      → IsSound select_at t (
          after_filter score model w next t
            (some (record { registry = r; asked = n; filtered = cs; probe_provider = p })))
  unfolding after_filter
  filtered-IsSound next t out sound sel r n [] p h =
      escalated (next n r) r n t _ _ (sound n r) (escalate t) refl
  filtered-IsSound next t out sound sel r n (c ∷ cs) p h =
      ((λ e. cc), omega arith, h.0, (out, sel, h.1))

  select-IsSound :
      (next : ℕ → Registry → Tier → Resolution Score) (n : ℕ) (r : Registry) (t : Tier)
      → NextIsSound t next
      → (x : Result (List SelectedProvider)) → select_at t ≡ x
      → IsSound select_at t (after_select score model w next n r t x)
  unfolding after_select
  select-IsSound next n r t sound (ok out) sel =
      go (filter_candidates w out start) (filter-From w out out start (Among-self out) (tt, tt))
    where
      start : Filtered
      start = record { registry = r; asked = n; filtered = []; probe_provider = none }

      go :
          (x : Option Filtered)
          → Holds (FilteredFrom out) x
          → IsSound select_at t (after_filter score model w next t x)
      go none h = unfold after_filter in tt
      go (some f) h =
          filtered-IsSound next t out sound sel f.registry f.asked f.filtered f.probe_provider h
  select-IsSound next n r t sound (err (Types.no_tier_match _ _)) sel =
      escalated (next n r) r n t _ _ (sound n r) (escalate t) refl
  select-IsSound next n r t sound (err (Types.config _)) sel = tt
  select-IsSound next n r t sound (err (Types.no_providers _)) sel = tt
  select-IsSound next n r t sound (err Types.no_policy_match) sel = tt
  select-IsSound next n r t sound (err (Types.provider _)) sel = tt
  select-IsSound next n r t sound (err (Types.upstream _)) sel = tt
  select-IsSound next n r t sound (err (Types.bad_request _)) sel = tt
  select-IsSound next n r t sound (err (Types.not_found _)) sel = tt
  select-IsSound next n r t sound (err (Types.internal _)) sel = tt
  select-IsSound next n r t sound (err (Types.circuit_open _)) sel = tt
  select-IsSound next n r t sound (err (Types.database _)) sel = tt

  -- Rounds for the tiers that are left are enough.
  rounds-IsSound :
      (rounds n : ℕ) (r : Registry) (t : Tier)
      → 3 ≤ rounds + rank t
      → IsSound select_at t (resolve_rounds score model w select_at rounds n r t)
  unfolding resolve_rounds
  rounds-IsSound zero n r t h = absurd (ground arith)
  rounds-IsSound (suc rounds) n r t h =
      select-IsSound (resolve_rounds score model w select_at rounds) n r t
        (λ n' r' t' up. rounds-IsSound rounds n' r' t' (omega (arith, escalate-rank t t' up)))
        (select_at t) refl

-- `resolve_candidates` always comes to an end within its three rounds, unless a wait for another
-- request's probe never ends. Where it resolves, there is at least one candidate; the tier is not
-- below the requested one; every candidate is one of those that the router selects at that tier;
-- and if a probe permit was noted, its provider is the first candidate.
pub resolve_candidates-IsSound :
    {Score : Type 0} (lower : String → String) (router : Router) (w : World) (model : String)
    (policy_name prompt : Option String) (score : Option Score) (max_tier : Tier) (r : Registry)
    → IsSound
        (λ t. select_candidates lower router model policy_name prompt (some t))
        max_tier
        (resolve_candidates lower router w model policy_name prompt score max_tier r)
unfolding resolve_candidates
resolve_candidates-IsSound lower router w model policy_name prompt score max_tier r =
    rounds-IsSound score model w
      (λ t. select_candidates lower router model policy_name prompt (some t)) 3 0 r max_tier
      (omega arith)
