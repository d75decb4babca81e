-- ===== src/Server/Auth.antt =====
-- src/proxy/server.rs: `auth_middleware` and the routes of `create_router`. A header that is not visible
-- ASCII is `none`. What the web framework does on other paths is left out, and so are the rate limit
-- and the tracing layers.
use arbstr.Prelude.{
  ℕ, ◌≡◌, ◌↔◌, ◌⊎◌, inl, inr, refl, sym, ap, subst, ◌∙◌, Bool, true, false, Option, none, some,
  List, [], ◌∷◌, ◌++◌, if◌then◌else◌, arith, Bool-cases, Option-cases,
}
use arbstr.Sse.Observer.{ascii, strip_prefix, bytes_eq}

-- The routes.
pub data Endpoint : Type 0 where
  chat_completions list_models cost_estimate : Endpoint
  stats logs health list_providers : Endpoint

pub data Routed : Type 0 where
  handled : Endpoint → Routed
  unauthorized : Routed

-- The settings that decide.
pub record Access : Type 0 where
  pub auth_token : Option (List ℕ)
  pub has_vault : Bool

-- The routes that are in `proxy_routes` when the layer is added.
abbrev pub is_proxy_route : Endpoint → Bool
is_proxy_route chat_completions = true
is_proxy_route list_models = true
is_proxy_route cost_estimate = true
is_proxy_route stats = false
is_proxy_route logs = false
is_proxy_route health = false
is_proxy_route list_providers = false

-- `strip_prefix("Bearer ") == Some(expected)`.
carries : List ℕ → Option (List ℕ) → Bool
carries expected none = false
carries expected (some value) = elim (strip_prefix (ascii "Bearer ") value) [
  | none ↦ false
  | some token ↦ bytes_eq token expected
]

unfoldable pub auth_middleware : List ℕ → Option (List ℕ) → Endpoint → Routed
unfolding carries
auth_middleware expected header e = if carries expected header then handled e else unauthorized

-- The layer of a route: the middleware, if a token is set and there is no vault.
layered : Option (List ℕ) → Bool → Option (List ℕ) → Endpoint → Routed
unfolding auth_middleware
layered token true header e = handled e
layered none false header e = handled e
layered (some token) false header e = auth_middleware token header e

unfoldable pub create_router : Access → Option (List ℕ) → Endpoint → Routed
unfolding layered
create_router a header e =
    if is_proxy_route e then layered a.auth_token a.has_vault header e else handled e

bytes_eq-eq : (xs ys : List ℕ) → bytes_eq xs ys ≡ true → xs ≡ ys
bytes_eq-eq [] [] h = refl
bytes_eq-eq [] (y ∷ ys) h = cc
bytes_eq-eq (x ∷ xs) [] h = cc
bytes_eq-eq (x ∷ xs) (y ∷ ys) h = ground (arith, bytes_eq-eq xs ys)

bytes_eq_refl : (xs : List ℕ) → bytes_eq xs xs ≡ true
bytes_eq_refl [] = refl
bytes_eq_refl (x ∷ xs) = ground (arith, bytes_eq_refl xs)

strip-append : (xs ys : List ℕ) → strip_prefix xs (xs ++ ys) ≡ some ys
strip-append [] ys = refl
strip-append (x ∷ xs) ys = ground (arith, strip-append xs ys)

strip-split : (xs line rest : List ℕ) → strip_prefix xs line ≡ some rest → line ≡ xs ++ rest
strip-split [] line rest h = ground arith
strip-split (x ∷ xs) [] rest h = cc
strip-split (x ∷ xs) (y ∷ ys) rest h = ground (arith, strip-split xs ys rest)

-- The header that a token wants.
abbrev pub bearer : List ℕ → List ℕ
bearer token = ascii "Bearer " ++ token

carries_self : (expected : List ℕ) → carries expected (some (bearer expected)) ≡ true
unfolding carries
carries_self expected = bytes_eq_refl expected

carries-bearer :
    (expected : List ℕ) (header : Option (List ℕ))
    → carries expected header ≡ true
    → header ≡ some (bearer expected)
unfolding carries
carries-bearer expected none h = cc
carries-bearer expected (some value) h =
    elim (Option-cases (strip_prefix (ascii "Bearer ") value)) [
      | inl e ↦ let g = rw e at h in cc
      | inr (token, e) ↦
          let same : token ≡ expected = bytes_eq-eq token expected (rw e at h) in
          ap some (strip-split (ascii "Bearer ") value token e ∙ ap bearer same)
    ]

-- What opens a proxy route.
abbrev pub Opens : Option (List ℕ) → Bool → Option (List ℕ) → Type 0
Opens set vault header =
    (vault ≡ true)
    ⊎ (set ≡ none)
    ⊎ ((token : List ℕ) × (set ≡ some token) × (header ≡ some (bearer token)))

layered-Opens :
    (set : Option (List ℕ)) (vault : Bool) (header : Option (List ℕ)) (e : Endpoint)
    → layered set vault header e ≡ handled e
    → Opens set vault header
unfolding layered auth_middleware
layered-Opens set true header e h = inl refl
layered-Opens none false header e h = inr (inl refl)
layered-Opens (some token) false header e h = elim (Bool-cases (carries token header)) [
  | inl c ↦ inr (inr (token, refl, carries-bearer token header c))
  | inr c ↦ let g = rw c at h in cc
]

Opens-layered :
    (set : Option (List ℕ)) (vault : Bool) (header : Option (List ℕ)) (e : Endpoint)
    → Opens set vault header
    → layered set vault header e ≡ handled e
unfolding layered auth_middleware
Opens-layered set true header e o = refl
Opens-layered none false header e o = refl
Opens-layered (some token) false header e (inl v) = cc
Opens-layered (some token) false header e (inr (inl n)) = cc
Opens-layered (some token) false header e (inr (inr (expected, same, given))) =
    let c : carries token header ≡ true =
      subst (λ h. carries token h ≡ true) (sym (given ∙ ap some (ap bearer (cc same))))
        (carries_self token) in
    rw c refl

layered_or :
    (set : Option (List ℕ)) (vault : Bool) (header : Option (List ℕ)) (e : Endpoint)
    → (layered set vault header e ≡ handled e) ⊎ (layered set vault header e ≡ unauthorized)
unfolding layered auth_middleware
layered_or set true header e = inl refl
layered_or none false header e = inl refl
layered_or (some token) false header e = elim (Bool-cases (carries token header)) [
  | inl c ↦ inl (rw c refl)
  | inr c ↦ inr (rw c refl)
]

-- A request reaches the handler of its route exactly if the route is none of the three proxy routes,
-- or there is a vault, or no token is set, or the header is "Bearer " and the very token that is set;
-- and else the answer is 401.
pub create_router-handled :
    (a : Access) (header : Option (List ℕ)) (e : Endpoint)
    → ((create_router a header e ≡ handled e)
        ↔ ((is_proxy_route e ≡ false) ⊎ Opens a.auth_token a.has_vault header))
      × ((create_router a header e ≡ handled e) ⊎ (create_router a header e ≡ unauthorized))
unfolding create_router
create_router-handled a header e = elim (Bool-cases (is_proxy_route e)) [
  | inl p ↦
      rw (create_router, p)
        (
          (
            λ h. inr (layered-Opens a.auth_token a.has_vault header e h),
            λ o. elim o [
              | inl n ↦ cc
              | inr open_way ↦ Opens-layered a.auth_token a.has_vault header e open_way
            ],
          ),
          layered_or a.auth_token a.has_vault header e,
        )
  | inr p ↦ rw (create_router, p) ((λ h. inl refl, λ o. refl), inl refl)
]
