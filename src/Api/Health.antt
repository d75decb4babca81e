-- ===== src/Api/Health.antt =====
-- src/proxy/handlers.rs: `health` and `list_models`. Dictionaries are lists; the tier of a name is that
-- of its last provider, as in the map that the source collects.
use arbstr.Prelude.{
  ℕ, ◌≡◌, ◌≢◌, refl, ◌||◌, ◌&&◌, ◌↔◌, Bool, true, false, String, List, [], ◌∷◌, ◌++◌, map, any,
  is_empty, str_eq, str_eq_iff, if◌then◌else◌, All, arith,
}
use arbstr.Router.Types.{ProviderConfig, tier_text}
use arbstr.Circuit.Breaker.{CircuitState, closed, opened, half_open, as_str, Inner}
use arbstr.Circuit.Registry.{CircuitSnapshot, Registry, all_states, snapshot}

pub record ProviderHealth : Type 0 where
  pub state : String
  pub failure_count : ℕ
  pub tier : String

pub record Health : Type 0 where
  pub status_code : ℕ
  pub status : String
  pub providers : List (String × ProviderHealth)

abbrev pub is_half_open : CircuitState → Bool
is_half_open closed = false
is_half_open opened = false
is_half_open half_open = true

abbrev pub is_open : CircuitState → Bool
is_open closed = false
is_open opened = true
is_open half_open = false

-- `tier_map.get(name)`, a later provider of the name before an earlier one.
tier_of : List ProviderConfig → String → String → String
tier_of [] name found = found
tier_of (p ∷ ps) name found =
    tier_of ps name (if str_eq p.name name then tier_text p.tier else found)

abbrev pub all_of {ℓ} : {A : Type ℓ} → (A → Bool) → List A → Bool
all_of p [] = true
all_of p (x ∷ xs) = let rest = all_of p xs in p x && rest

-- The status of `health`, its text and its code.
unfoldable pub health_status : List CircuitSnapshot → String × ℕ
health_status snapshots =
    if is_empty snapshots
    then ("ok", 200)
    else if all_of (λ s. is_open s.state) snapshots
    then ("unhealthy", 503)
    else if any (λ s. is_open s.state || is_half_open s.state) snapshots
    then ("degraded", 200)
    else ("ok", 200)

unfoldable pub health : List ProviderConfig → Registry → Health
unfolding tier_of
health configured r =
    let snapshots = all_states r in
    record {
      status_code = (health_status snapshots).1;
      status = (health_status snapshots).0;
      providers =
          map
            (λ s. (
              s.name,
              record {
                state = as_str s.state;
                failure_count = s.failure_count;
                tier = tier_of configured s.name "standard";
              },
            ))
            snapshots;
    }

-- The ids that `list_models` answers: `seen` is the set of those it has.
new_models : List String → List String → List String
new_models seen [] = []
new_models seen (m ∷ ms) =
    let rest = new_models (m ∷ seen) ms in
    let skipped = new_models seen ms in if any (λ n. str_eq n m) seen then skipped else m ∷ rest

unfoldable pub all_models : List ProviderConfig → List String
all_models [] = []
all_models (p ∷ ps) = p.models ++ all_models ps

unfoldable pub list_models : List ProviderConfig → List String
unfolding new_models all_models
list_models configured = new_models [] (all_models configured)

abbrev pub IsOpen : String × Inner → Type 0
IsOpen (name, c) = c.state ≡ opened

abbrev pub IsClosed : String × Inner → Type 0
IsClosed (name, c) = c.state ≡ closed

module _ where
  open_iff : (s : CircuitState) → (is_open s ≡ true) → (s ≡ opened)
  open_iff closed h = cc h
  open_iff opened h = refl
  open_iff half_open h = cc h

  both : (a b : Bool) → a && b ≡ true → (a ≡ true) × (b ≡ true)
  both true b h = (refl, h)
  both false b h = cc h

  neither : (a b : Bool) → a || b ≡ false → (a ≡ false) × (b ≡ false)
  neither true b h = cc h
  neither false b h = (refl, h)

  sound_state : (s : CircuitState) → is_open s || is_half_open s ≡ false → s ≡ closed
  sound_state closed h = refl
  sound_state opened h = cc h
  sound_state half_open h = cc h

  all_of-IsOpen :
      (r : Registry) → all_of (λ s. is_open s.state) (map snapshot r) ≡ true → All IsOpen r
  all_of-IsOpen [] h = tt
  all_of-IsOpen ((n, c) ∷ r) h =
      let e = both (is_open c.state) (all_of (λ s. is_open s.state) (map snapshot r)) h in
      (open_iff c.state e.0, all_of-IsOpen r e.1)

  IsOpen-all_of :
      (r : Registry) → All IsOpen r → all_of (λ s. is_open s.state) (map snapshot r) ≡ true
  IsOpen-all_of [] a = refl
  IsOpen-all_of ((n, c) ∷ r) (e, a) = rw (e, IsOpen-all_of r a)

  any-IsClosed :
      (r : Registry)
      → any (λ s. is_open s.state || is_half_open s.state) (map snapshot r) ≡ false
      → All IsClosed r
  any-IsClosed [] h = tt
  any-IsClosed ((n, c) ∷ r) h =
      let e =
        neither (is_open c.state || is_half_open c.state)
          (any (λ s. is_open s.state || is_half_open s.state) (map snapshot r)) h in
      (sound_state c.state e.0, any-IsClosed r e.1)

  IsClosed-any :
      (r : Registry)
      → All IsClosed r
      → any (λ s. is_open s.state || is_half_open s.state) (map snapshot r) ≡ false
  IsClosed-any [] a = refl
  IsClosed-any ((n, c) ∷ r) (e, a) = rw (e, IsClosed-any r a)

  verdict : Bool → Bool → String × ℕ
  verdict o t = if o then ("unhealthy", 503) else if t then ("degraded", 200) else ("ok", 200)

  verdict_503 : (o t : Bool) → (verdict o t).1 ≡ 503 → o ≡ true
  unfolding verdict
  verdict_503 true t e = refl
  verdict_503 false true e = absurd (omega arith)
  verdict_503 false false e = absurd (omega arith)

  verdict_ok : (o t : Bool) → (verdict o t).0 ≡ "ok" → t ≡ false
  unfolding verdict
  verdict_ok o false e = refl
  verdict_ok true true e = let h = (str_eq_iff "unhealthy" "ok").1 e in cc h
  verdict_ok false true e = let h = (str_eq_iff "degraded" "ok").1 e in cc h

  -- `health` answers 503 exactly when there is a breaker and all are open, and says "ok" exactly when
  -- all breakers are closed, for every configuration and every registry, also an empty one.
  pub health-status :
      (configured : List ProviderConfig)
      → (r : Registry)
      → ((health configured r).status_code ≡ 503 ↔ (r ≢ []) × All IsOpen r)
        × ((health configured r).status ≡ "ok" ↔ All IsClosed r)
  unfolding health health_status all_states verdict
  health-status configured [] =
      ((λ e. absurd (omega arith), λ p. absurd (p.0 refl)), (λ e. tt, λ a. refl))
  health-status configured ((n, c) ∷ r) =
      let o = all_of (λ s. is_open s.state) (map snapshot ((n, c) ∷ r)) in
      let t = any (λ s. is_open s.state || is_half_open s.state) (map snapshot ((n, c) ∷ r)) in
      (
        (
          λ e. (λ q. cc q, all_of-IsOpen ((n, c) ∷ r) (verdict_503 o t e)),
          λ p. let g = IsOpen-all_of ((n, c) ∷ r) p.1 in rw g,
        ),
        (
          λ e. any-IsClosed ((n, c) ∷ r) (verdict_ok o t e),
          λ a. let g : c.state ≡ closed = a.0 in let u = IsClosed-any r a.1 in rw (g, u),
        ),
      )
