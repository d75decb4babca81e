-- ===== src/Server/StartUp.antt =====
-- src/proxy/server.rs: `run_server` up to the listening. Opening the two pools succeeds or not.
use arbstr.Prelude.{
  ◌≡◌, refl, sym, subst, ◌&&◌, Bool, Option, some, String, List, [], ◌∷◌, map, lookup, insert,
  lookup-insert, str_eq, str_eq_iff, All, All-mono, Bool-cases, inl, inr,
}
use arbstr.Circuit.Breaker
use arbstr.Circuit.Breaker.{Inner}
use arbstr.Circuit.Registry.{Registry, new_registry}
use arbstr.Router.Types.{ProviderConfig, PolicyRule, SelectedProvider, Tier, selected, ok}
use arbstr.Router.Selector.{Router, select_candidates}
use arbstr.Router.Discovery.{Discovery, Endpoint, discover_models}
use arbstr.Router.Choice.{IsEligibleOf, is_eligible, select_candidates-IsChoice}

-- The configuration's parts that are read here.
pub record ServerSettings : Type 0 where
  pub providers : List ProviderConfig
  pub rules : List PolicyRule
  pub default_strategy : String
  pub has_vault : Bool

-- The state that all handlers share, and whether the reconciliation runs.
pub record Started : Type 0 where
  pub router : Router
  pub circuit_breakers : Registry
  pub db : Bool
  pub read_db : Bool
  pub db_writer : Bool
  pub vault : Bool
  pub reconciles : Bool

-- The last two arguments are whether the pools can be opened.
unfoldable pub run_server :
    (String → String) → (Discovery → Endpoint) → ServerSettings → Bool → Bool → Started
run_server trim_end send c pool_opens read_pool_opens =
    let providers = discover_models trim_end send c.providers in
    record {
      router = record {
        providers = providers;
        policy_rules = c.rules;
        default_strategy = c.default_strategy;
      };
      circuit_breakers = new_registry (map (λ p. p.name) providers) [];
      db = pool_opens;
      read_db = pool_opens && read_pool_opens;
      db_writer = pool_opens;
      vault = c.has_vault;
      reconciles = c.has_vault && pool_opens;
    }

-- A name has a new breaker.
abbrev HasNew : Registry → String → Type 0
HasNew r name = lookup name r ≡ some Breaker.new

new_registry-keeps :
    (names : List String) (r : Registry) (name : String)
    → HasNew r name
    → HasNew (new_registry names r) name
unfolding new_registry
new_registry-keeps [] r name h = h
new_registry-keeps (n ∷ names) r name h =
    new_registry-keeps names (insert n Breaker.new r) name (elim (Bool-cases (str_eq n name)) [
      | inl e ↦ rw (lookup-insert n name Breaker.new r, e) refl
      | inr e ↦ rw (lookup-insert n name Breaker.new r, e) h
    ])

new_registry-HasNew :
    (names : List String) (r : Registry) → All (HasNew (new_registry names r)) names
unfolding new_registry
new_registry-HasNew [] r = tt
new_registry-HasNew (n ∷ names) r = (
  new_registry-keeps names (insert n Breaker.new r) n
      (rw (lookup-insert n n Breaker.new r, (str_eq_iff n n).1 refl) refl),
  new_registry-HasNew names (insert n Breaker.new r),
)

All-of_map {ℓ κ μ} :
    {A : Type ℓ} {B : Type κ} (P : B → Type μ) (g : A → B) (xs : List A)
    → All P (map g xs)
    → All (λ x. P (g x)) xs
All-of_map P g [] a = tt
All-of_map P g (x ∷ xs) a = (a.0, All-of_map P g xs a.1)

All-to_map {ℓ κ μ} :
    {A : Type ℓ} {B : Type κ} (P : B → Type μ) (g : A → B) (xs : List A)
    → All (λ x. P (g x)) xs
    → All P (map g xs)
All-to_map P g [] a = tt
All-to_map P g (x ∷ xs) a = (a.0, All-to_map P g xs a.1)

All-at :
    (test : ProviderConfig → Bool) (P : ProviderConfig → Type 0) (ps : List ProviderConfig)
    (q : ProviderConfig)
    → All P ps
    → IsEligibleOf test ps q
    → P q
All-at test P [] q a m = absurd m
All-at test P (p ∷ ps) q a (inl (_, e)) = subst P (sym e) a.0
All-at test P (p ∷ ps) q a (inr m) = All-at test P ps q a.1 m

module _ (trim_end : String → String) (send : Discovery → Endpoint) (c : ServerSettings)
    (pool_opens read_pool_opens : Bool) where
  abbrev started : Started
  started = run_server trim_end send c pool_opens read_pool_opens

  -- When the server has started, whatever the discovery finds: every candidate that is selected, for
  -- any request and tier, has a new breaker in the registry, so asking for its permit never meets an
  -- unknown provider.
  pub run_server-candidates :
      (lower : String → String) (model : String) (policy_name prompt : Option String)
      (t : Option Tier) (out : List SelectedProvider)
      → select_candidates lower started.router model policy_name prompt t ≡ ok out
      → All (λ p. lookup p.name started.circuit_breakers ≡ some Breaker.new) out
  unfolding run_server selected
  run_server-candidates lower model policy_name prompt t out h =
      let ps = started.router.providers in
      let all_named =
        All-of_map (HasNew started.circuit_breakers) (λ (p : ProviderConfig). p.name) ps
          (new_registry-HasNew (map (λ p. p.name) ps) []) in
      let (chosen, same, choice) =
        select_candidates-IsChoice lower started.router model policy_name prompt t out h in
      let test = is_eligible lower started.router model policy_name prompt t in
      subst (All (λ p. HasNew started.circuit_breakers p.name)) (sym same) (
        All-to_map (λ p. HasNew started.circuit_breakers p.name) selected chosen
          (All-mono (IsEligibleOf test ps) (λ p. HasNew started.circuit_breakers p.name) chosen
            (λ q. All-at test (λ p. HasNew started.circuit_breakers p.name) ps q all_named)
            choice.from_eligible))
