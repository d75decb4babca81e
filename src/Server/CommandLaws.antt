-- ===== src/Server/CommandLaws.antt =====
-- src/main.rs: the three commands on the same file.
use arbstr.Prelude.{
  ℕ, ◌≡◌, refl, ap, ◌++◌, ◌↔◌, ◌⊎◌, inl, inr, true, false, Option, none, some, List, [], ◌∷◌, map,
  Any, Option-cases,
}
use arbstr.Sse.Observer.{ascii}
use arbstr.Api.Listing.{splits_character, masked-splits}
use arbstr.Config.Expand.{Bytes, ConfigError, Loaded}
use arbstr.Config.Keys.{ApiKey, Provider, Settings, KeySource, load}
use arbstr.Config.KeysLaws.{Loaded-cases, AllLoaded, load-AllLoaded}
use arbstr.Server.Command.{
  Command, serve, check, providers, Others, Ending, runs, prints, fails, panics, override_listen,
  key_line, listing, check_lines, providers_ending, from_file_with_env, main,
}

module _ (upper : Bytes → Bytes) (env_lookup : Bytes → Option Bytes) (show octal : ℕ → Bytes) where
  key_line-splits :
      (key : Option ApiKey)
      → ((key_line upper env_lookup show octal key ≡ none) × (splits_character key ≡ true))
        ⊎ ((ls : List Bytes) × (key_line upper env_lookup show octal key ≡ some ls)
            × (splits_character key ≡ false))
  unfolding key_line
  key_line-splits none = inr ([], refl, refl)
  key_line-splits (some key) = elim (masked-splits key) [
    | inl (e, split) ↦ inl (rw (key_line, e) refl, split)
    | inr (m, e, whole) ↦ inr ((ascii "    Key: " ++ m) ∷ [], rw (key_line, e) refl, whole)
  ]

  listing-none :
      (ps : List (Provider ApiKey))
      → (listing upper env_lookup show octal ps ≡ none)
        ↔ Any (λ p. splits_character p.api_key ≡ true) ps
  unfolding listing
  listing-none [] = (λ e. cc e, λ a. absurd a)
  listing-none (p ∷ ps) = elim (key_line-splits p.api_key) [
    | inl (stops, split) ↦ (λ e. inl split, λ a. rw (listing, stops) refl)
    | inr (ls, shown, whole) ↦ elim (Option-cases (listing upper env_lookup show octal ps)) [
      | inl stops ↦ (λ e. inr ((listing-none ps).0 stops), λ a. rw (listing, shown, stops) refl)
      | inr (lines, goes) ↦ (
        λ e. let h = rw (listing, shown, goes) at e in cc h,
        λ a. elim a [
          | inl split ↦ cc (split, whole)
          | inr more ↦ let stops = (listing-none ps).1 more in cc (goes, stops)
        ],
      )
    ]
  ]

  module _ {S : Type 0} (read : Bytes → Loaded (Settings Bytes (Others S)))
      (mode : Bytes → Option ℕ) (mock_rest : S) where
    providers_ending-panics :
        (ps : List (Provider ApiKey))
        → (providers_ending upper env_lookup show octal read mode mock_rest ps ≡ panics)
          ↔ Any (λ p. splits_character p.api_key ≡ true) ps
    unfolding providers_ending
    providers_ending-panics [] = (λ e. cc e, λ a. absurd a)
    providers_ending-panics (p ∷ ps) =
        elim (Option-cases (listing upper env_lookup show octal (p ∷ ps))) [
          | inl stops ↦
              (λ e. (listing-none (p ∷ ps)).0 stops, λ a. rw (providers_ending, stops) refl)
          | inr (lines, goes) ↦ (
            λ e. let h = rw (providers_ending, goes) at e in cc h,
            λ a. let stops = (listing-none (p ∷ ps)).1 a in cc (goes, stops),
          )
        ]

    names-same :
        (raws : List (Provider Bytes)) (ps : List (Provider ApiKey)) (ss : List (Bytes × KeySource))
        → AllLoaded upper env_lookup raws ps ss
        → map (λ s. s.0) ss ≡ map (λ p. p.name) ps
    names-same [] [] [] a = refl
    names-same [] [] (s ∷ ss) a = absurd a
    names-same [] (p ∷ ps) ss a = absurd a
    names-same (r ∷ rs) [] ss a = absurd a
    names-same (r ∷ rs) (p ∷ ps) [] a = absurd a
    names-same (r ∷ rs) (p ∷ ps) (s ∷ ss) a =
        let rest = names-same rs ps ss a.1 in
        let name : p.name ≡ r.name = ap (λ q. q.name) a.0.kept in cc (rest, name, a.0.named)

    abbrev ends : Command → Ending S
    ends c = main upper env_lookup show octal read mode mock_rest c

    -- What the three commands do with a file that loads.
    abbrev pub Agree :
        Bytes → Option Bytes → Settings ApiKey (Others S) → List (Bytes × KeySource) → Type 0
    Agree path listen config sources =
        (ends (serve path listen false) ≡ runs (override_listen listen config))
        × (ends (check path)
            ≡ prints
                (check_lines upper env_lookup show octal read mode mock_rest path config sources))
        × (map (λ s. s.0) sources ≡ map (λ p. p.name) config.providers)
        × ((ends (providers path) ≡ panics)
            ↔ Any (λ p. splits_character p.api_key ≡ true) config.providers)

    -- For every file, `serve`, `check` and `providers` fail with the same error; or else the server runs
    -- with the configuration that `check` prints, with the listen address of the command line if there
    -- is one; the key statuses that it prints are those of the providers, in their order; and
    -- `providers` panics exactly where some provider has a key of ten bytes or more in which no
    -- character begins after the sixth byte.
    pub main-agrees :
        (path : Bytes) (listen : Option Bytes)
        → ((e : ConfigError) × (ends (serve path listen false) ≡ fails e)
            × (ends (check path) ≡ fails e)
            × (ends (providers path) ≡ fails e))
          ⊎ ((config : Settings ApiKey (Others S)) × (sources : List (Bytes × KeySource)) × Agree
                path listen config sources)
    unfolding main from_file_with_env
    main-agrees path listen = elim (Loaded-cases (read path)) [
      | inr (x, e) ↦ inl (
        x,
        rw (main, from_file_with_env, e) refl,
        rw (main, from_file_with_env, e) refl,
        rw (main, from_file_with_env, e) refl,
      )
      | inl (raw, e) ↦ elim (Loaded-cases (load upper env_lookup raw)) [
        | inr (x, l) ↦ inl (
          x,
          rw (main, from_file_with_env, e, l) refl,
          rw (main, from_file_with_env, e, l) refl,
          rw (main, from_file_with_env, e, l) refl,
        )
        | inl ((config, sources), l) ↦ inr (
          config,
          sources,
          (
            rw (main, from_file_with_env, e, l) refl,
            rw (main, from_file_with_env, e, l) refl,
            names-same raw.providers config.providers sources
                (load-AllLoaded upper env_lookup raw config sources l).0,
            rw (main, from_file_with_env, e, l) (providers_ending-panics config.providers),
          ),
        )
      ]
    ]
