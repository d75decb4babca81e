-- ===== src/Config/KeysLaws.antt =====
-- src/config.rs: where the keys of a loaded configuration come from, and what a masked key shows.
use arbstr.Prelude.{
  ℕ, zero, suc, length-append, ◌≤◌, ◌<◌, ◌≡◌, refl, subst, ap, ◌⊎◌, inl, inr, false, Option, none,
  some, List, [], ◌∷◌, ◌++◌, arith, length, is_empty, All, Bool-cases, Option-cases,
}
use arbstr.Sse.Observer.{ascii, take, byte_at}
use arbstr.Config.Expand.{
  Bytes, Loaded, ok, err, ◌>>=◌, ConfigError, split_reference, expand_env_vars_with,
}
use arbstr.Config.Keys.{
  ApiKey, is_continuation, masked_prefix, KeySource, literal, env_expanded, convention, no_key,
  Provider, Settings, convention_env_var_name, resolve_key, load_providers, from_raw_with_lookup,
  validate_providers, load,
}

pub Loaded-cases {ℓ} :
    {A : Type ℓ} (a : Loaded A) → ((x : A) × (a ≡ ok x)) ⊎ ((e : ConfigError) × (a ≡ err e))
Loaded-cases (ok x) = inl (x, refl)
Loaded-cases (err e) = inr (e, refl)

module _ (upper : Bytes → Bytes) (env_lookup : Bytes → Option Bytes) where
  -- How a key and its source come from the raw key of a provider.
  pub data KeyFrom (name : Bytes) : Option Bytes → Option ApiKey → KeySource → Type 0 where
    as_written :
        {k : Bytes}
        → split_reference k ≡ none
        → KeyFrom name (some k) (some (record { secret = k })) literal
    expanded :
        {k v : Bytes}
        → expand_env_vars_with env_lookup k name ≡ ok v
        → KeyFrom name (some k) (some (record { secret = v })) env_expanded
    found :
        {v : Bytes}
        → env_lookup (convention_env_var_name upper env_lookup name) ≡ some v
        → KeyFrom name none
            (some (record { secret = v }))
            (convention (convention_env_var_name upper env_lookup name))
    missing :
        env_lookup (convention_env_var_name upper env_lookup name) ≡ none
        → KeyFrom name none none no_key

  -- A provider of the configuration, with its source, for a provider of the file: its
  -- key is as its source says, and all else is as in the file.
  pub record IsLoaded (raw : Provider Bytes) (p : Provider ApiKey) (s : Bytes × KeySource)
      : Type 0 where
    pub key : KeyFrom raw.name raw.api_key p.api_key s.1
    pub named : s.0 ≡ raw.name
    pub kept : p ≡ record {
      name = raw.name;
      url = raw.url;
      api_key = p.api_key;
      models = raw.models;
      input_rate = raw.input_rate;
      output_rate = raw.output_rate;
      base_fee = raw.base_fee;
      tier = raw.tier;
      auto_discover = raw.auto_discover;
    }

  abbrev pub AllLoaded :
      List (Provider Bytes) → List (Provider ApiKey) → List (Bytes × KeySource) → Type 0
  AllLoaded [] [] [] = Unit
  AllLoaded (r ∷ rs) (p ∷ ps) (s ∷ ss) = IsLoaded r p s × AllLoaded rs ps ss
  AllLoaded _ _ _ = ⊥

  -- An outcome that, where it is no error, has a property.
  abbrev Every {ℓ κ} : {A : Type ℓ} → (A → Type κ) → Loaded A → Type κ
  Every P (ok a) = P a
  Every P (err e) = Unit

  resolve_key-KeyFrom :
      (name : Bytes) (raw : Option Bytes)
      → Every (λ k. KeyFrom name raw k.0 k.1) (resolve_key upper env_lookup name raw)
  unfolding resolve_key
  resolve_key-KeyFrom name none =
      elim (Option-cases (env_lookup (convention_env_var_name upper env_lookup name))) [
        | inl e ↦ rw (e, Every) (missing e)
        | inr (v, e) ↦ rw (e, Every) (found e)
      ]
  resolve_key-KeyFrom name (some k) = elim (Option-cases (split_reference k)) [
    | inl e ↦ rw (e, Every) (as_written e)
    | inr (_, e) ↦
        rw (e, Every)
          (elim (Loaded-cases (expand_env_vars_with env_lookup k name)) [
            | inl (v, f) ↦ rw (f, Every) (expanded f)
            | inr (x, f) ↦ rw (f, Every) tt
          ])
  ]

  load_providers-AllLoaded :
      (rs : List (Provider Bytes))
      → Every (λ out. AllLoaded rs out.0 out.1) (load_providers upper env_lookup rs)
  unfolding load_providers
  load_providers-AllLoaded [] = tt
  load_providers-AllLoaded (r ∷ rs) =
      let keyed = resolve_key-KeyFrom r.name r.api_key in
      let loaded = load_providers-AllLoaded rs in
      elim (Loaded-cases (resolve_key upper env_lookup r.name r.api_key)) [
        | inl (k, e) ↦ elim (Loaded-cases (load_providers upper env_lookup rs)) [
          | inl (out, f) ↦
              let from : KeyFrom r.name r.api_key k.0 k.1 = rw (e, Every) at keyed in
              let all : AllLoaded rs out.0 out.1 = rw (f, Every) at loaded in
              rw (e, ◌>>=◌, f, Every) (record { key = from; named = refl; kept = refl }, all)
          | inr (x, f) ↦ rw (e, ◌>>=◌, f, Every) tt
        ]
        | inr (x, e) ↦ rw (e, ◌>>=◌, Every) tt
      ]

abbrev value_or {ℓ} : {A : Type ℓ} → A → Loaded A → A
value_or d (ok a) = a
value_or d (err e) = d

validate_providers-urls :
    {K : Type 0} (ps : List (Provider K)) (u : Unit {0})
    → validate_providers ps ≡ ok u
    → All (λ p. is_empty p.url ≡ false) ps
unfolding validate_providers
validate_providers-urls [] u h = tt
validate_providers-urls (p ∷ ps) u h = elim (Bool-cases (is_empty p.url)) [
  | inl e ↦ let g = rw e at h in cc
  | inr e ↦ (e, validate_providers-urls ps u (rw e at h))
]

-- If a configuration loads, then its providers and the sources of their keys are those of the file,
-- one for one: each key is as its source says (as written, expanded from references, found under
-- the conventional variable, or missing), all else is as in the file, and every provider has a URL.
pub load-AllLoaded :
    {S : Type 0} (upper : Bytes → Bytes) (env_lookup : Bytes → Option Bytes)
    (raw : Settings Bytes S) (config : Settings ApiKey S) (sources : List (Bytes × KeySource))
    → load upper env_lookup raw ≡ ok (config, sources)
    → AllLoaded upper env_lookup raw.providers config.providers sources
      × All (λ p. is_empty p.url ≡ false) config.providers
      × (config.others ≡ raw.others)
unfolding load from_raw_with_lookup
load-AllLoaded upper env_lookup raw config sources h =
    elim (Loaded-cases (load_providers upper env_lookup raw.providers)) [
      | inl (out, e) ↦ elim (Loaded-cases (validate_providers out.0)) [
        | inl (u, v) ↦
            let q = rw (e, ◌>>=◌, v, ◌>>=◌) at h in
            let made : AllLoaded upper env_lookup raw.providers out.0 out.1 =
              rw (e, Every) at (load_providers-AllLoaded upper env_lookup raw.providers) in
            subst
              (λ c.
                AllLoaded upper env_lookup raw.providers c.0.providers c.1
                × All (λ p. is_empty p.url ≡ false) c.0.providers
                × (c.0.others ≡ raw.others))
              (ap (value_or (record { providers = out.0; others = raw.others }, out.1)) q)
              (made, validate_providers-urls out.0 u v, refl)
        | inr (x, v) ↦ let q = rw (e, ◌>>=◌, v, ◌>>=◌) at h in cc
      ]
      | inr (x, e) ↦ let q = rw (e, ◌>>=◌) at h in cc
    ]

length-take : (n : ℕ) (xs : Bytes) → length (take n xs) ≤ n
length-take zero xs = omega arith
length-take (suc n) [] = omega arith
length-take (suc n) (x ∷ xs) = omega (arith, length-take n xs)

-- A masked key shows no more than six bytes: two keys of at least ten bytes with the same first six,
-- after which a character begins, have the same mask, and so have any two shorter keys.
mask-hides :
    (a b : ApiKey)
    → ((length a.secret < 10) × (length b.secret < 10))
      ⊎ ((10 ≤ length a.secret)
          × (10 ≤ length b.secret)
          × (take 6 a.secret ≡ take 6 b.secret)
          × (is_continuation (byte_at a.secret 6) ≡ false)
          × (is_continuation (byte_at b.secret 6) ≡ false))
    → (m : Bytes) × (masked_prefix a ≡ some m) × (masked_prefix b ≡ some m) × (length m ≤ 12)
unfolding masked_prefix
mask-hides a b (inl h) = (ascii "[REDACTED]", ground arith, ground arith, omega arith)
mask-hides a b (inr (la, lb, same, ca, cb)) = (
  take 6 a.secret ++ ascii "...***",
  ground arith,
  ground arith,
  omega (arith, length-append (take 6 a.secret) (ascii "...***"), length-take 6 a.secret),
)
