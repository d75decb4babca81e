-- ===== src/Server/Command.antt =====
-- src/main.rs, with `check_file_permissions` of src/config.rs: the three commands, over bytes. Reading and
-- parsing a file, its mode, and the writing of numbers are arguments; what is logged is left out.
use arbstr.Prelude.{
  ℕ, ◌%◌, ◌==◌, ◌++◌, Bool, true, false, Option, none, some, List, [], ◌∷◌, length, is_empty,
  if◌then◌else◌,
}
use arbstr.Router.Types.{PolicyRule, standard}
use arbstr.Sse.Observer.{ascii}
use arbstr.Config.Expand.{Bytes, ConfigError, Loaded, ok, err, ◌>>=◌}
use arbstr.Config.Keys.{
  ApiKey, Provider, Settings, KeySource, literal, env_expanded, convention, no_key, masked_prefix,
  convention_env_var_name, load,
}

pub data Command : Type 0 where
  serve : Bytes → Option Bytes → Bool → Command
  check : Bytes → Command
  providers : Bytes → Command

-- The parts of the configuration, beside the providers, that are read here; the rest is passed on.
pub record Others (S : Type 0) : Type 0 where
  pub listen : Bytes
  pub rules : List PolicyRule
  pub rest : S

-- How `main` ends: it runs the server, it has printed lines, it fails with the error, or it panics.
pub data Ending (S : Type 0) : Type 0 where
  runs : Settings ApiKey (Others S) → Ending S
  prints : List Bytes → Ending S
  fails : ConfigError → Ending S
  panics : Ending S

-- `join(", ")`.
joined_by_commas : List Bytes → Bytes
joined_by_commas [] = []
joined_by_commas (m ∷ []) = m
joined_by_commas (m ∷ n ∷ ms) = m ++ (ascii ", " ++ joined_by_commas (n ∷ ms))

-- The providers of `mock_config`.
abbrev mock_provider : Bytes → Bytes → Bytes → List Bytes → ℕ → ℕ → ℕ → Provider ApiKey
mock_provider name url key models input_rate output_rate base_fee = record {
  name = name;
  url = url;
  api_key = some (record { secret = key });
  models = models;
  input_rate = input_rate;
  output_rate = output_rate;
  base_fee = base_fee;
  tier = standard;
  auto_discover = false;
}

abbrev pub mock_providers : List (Provider ApiKey)
mock_providers =
    mock_provider (ascii "mock-cheap") (ascii "http://localhost:9999/v1")
      (ascii "mock-test-key-cheap")
      (ascii "gpt-4o" ∷ ascii "gpt-4o-mini" ∷ ascii "claude-3.5-sonnet" ∷ []) 5 15 0
    ∷ mock_provider (ascii "mock-expensive") (ascii "http://localhost:9998/v1")
        (ascii "mock-test-key-expensive") (ascii "gpt-4o" ∷ ascii "claude-3.5-sonnet" ∷ []) 10 30 1
    ∷ []

abbrev pub mock_rules : List PolicyRule
mock_rules =
    record {
      name = "code";
      allowed_models = "gpt-4o" ∷ "claude-3.5-sonnet" ∷ [];
      strategy = "lowest_cost";
      max_sats_per_1k_output = some 50;
      keywords = "code" ∷ "function" ∷ "implement" ∷ [];
    }
    ∷ []

-- `--listen`.
abbrev pub override_listen :
    {S : Type 0} → Option Bytes → Settings ApiKey (Others S) → Settings ApiKey (Others S)
override_listen none c = c
override_listen (some address) c = record c { others = record c.others { listen = address } }

module _ (upper : Bytes → Bytes) (env_lookup : Bytes → Option Bytes) (show octal : ℕ → Bytes) where
  -- The lines of `providers` for one provider; `none` is a panic.
  unfoldable pub key_line : Option ApiKey → Option (List Bytes)
  key_line none = some []
  key_line (some key) = elim (masked_prefix key) [
    | none ↦ none
    | some m ↦ some ((ascii "    Key: " ++ m) ∷ [])
  ]

  provider_lines : Provider ApiKey → List Bytes → List Bytes
  unfolding joined_by_commas
  provider_lines p key_lines =
      (ascii "  " ++ (p.name ++ (ascii " (" ++ (p.url ++ ascii ")"))))
      ∷ ((if is_empty p.models
            then []
            else (ascii "    Models: " ++ joined_by_commas p.models) ∷ [])
          ++ ((ascii "    Rates: "
                ++ (show p.input_rate
                    ++ (ascii " sats/1k input, "
                        ++ (show p.output_rate ++ ascii " sats/1k output"))))
              ∷ ((if p.base_fee == 0
                    then []
                    else (ascii "    Base fee: " ++ (show p.base_fee ++ ascii " sats")) ∷ [])
                  ++ (key_lines ++ [] ∷ []))))

  unfoldable pub listing : List (Provider ApiKey) → Option (List Bytes)
  unfolding key_line provider_lines
  listing [] = some []
  listing (p ∷ ps) =
      let rest = listing ps in
      elim (key_line p.api_key) [
        | none ↦ none
        | some key_lines ↦ elim rest [
          | none ↦ none
          | some lines ↦ some (provider_lines p key_lines ++ lines)
        ]
      ]

  -- The lines of `check` on the key of one provider.
  key_status : Bytes × KeySource → List Bytes
  key_status (name, literal) =
      let conv_var = convention_env_var_name upper env_lookup name in
      (ascii "  " ++ (name ++ ascii ": key from config-literal"))
      ∷ (ascii "    WARNING: Plaintext key. Consider: set "
          ++ (conv_var
              ++ (ascii " or use api_key = "
                  ++ (34 ∷ ascii "${" ++ (conv_var ++ ascii "}") ++ 34 ∷ []))))
      ∷ []
  key_status (name, env_expanded) = (ascii "  " ++ (name ++ ascii ": key from env-expanded")) ∷ []
  key_status (name, convention var) =
      (ascii "  " ++ (name ++ (ascii ": key from convention (" ++ (var ++ ascii ")")))) ∷ []
  key_status (name, no_key) =
      (ascii "  "
        ++ (name
            ++ (ascii ": no key (set "
                ++ (convention_env_var_name upper env_lookup name
                    ++ ascii " or add api_key to config)"))))
      ∷ []

  key_statuses : List (Bytes × KeySource) → List Bytes
  unfolding key_status
  key_statuses [] = []
  key_statuses (s ∷ ss) = key_status s ++ key_statuses ss

  module _ {S : Type 0} (read : Bytes → Loaded (Settings Bytes (Others S)))
      (mode : Bytes → Option ℕ) (mock_rest : S) where
    -- `mode & 0o777`, and of that `& 0o177`.
    unfoldable pub check_file_permissions : Bytes → Option (Bytes × ℕ)
    check_file_permissions path = elim (mode path) [
      | none ↦ none
      | some m ↦ let bits = m % 512 in if bits % 128 == 0 then none else some (path, bits)
    ]

    permission_lines : Option (Bytes × ℕ) → List Bytes
    permission_lines none = []
    permission_lines (some (path, bits)) =
        []
        ∷ (ascii "  WARNING: Config file '"
            ++ (path
                ++ (ascii "' has permissions " ++ (octal bits ++ ascii " (more open than 0600)"))))
        ∷ (ascii "  Consider: chmod 600 " ++ path)
        ∷ []

    unfoldable pub check_lines :
        Bytes → Settings ApiKey (Others S) → List (Bytes × KeySource) → List Bytes
    unfolding check_file_permissions permission_lines key_statuses
    check_lines path c sources =
        ascii "Configuration is valid!"
        ∷ (ascii "  Listen: " ++ c.others.listen)
        ∷ (ascii "  Providers: " ++ show (length c.providers))
        ∷ (ascii "  Policy rules: " ++ show (length c.others.rules))
        ∷ (permission_lines (check_file_permissions path)
            ++ ([] ∷ ascii "Provider key status:" ∷ key_statuses sources))

    abbrev pub mock_config : Settings ApiKey (Others S)
    mock_config = record {
      providers = mock_providers;
      others = record { listen = ascii "127.0.0.1:8080"; rules = mock_rules; rest = mock_rest };
    }

    unfoldable pub providers_ending : List (Provider ApiKey) → Ending S
    unfolding listing
    providers_ending [] = prints (ascii "No providers configured." ∷ [])
    providers_ending (p ∷ ps) = elim (listing (p ∷ ps)) [
      | none ↦ panics
      | some lines ↦ prints ((ascii "Configured providers:" ∷ [] ∷ []) ++ lines)
    ]

    -- `from_file_with_env`.
    unfoldable pub from_file_with_env :
        Bytes → Loaded (Settings ApiKey (Others S) × List (Bytes × KeySource))
    from_file_with_env path = do raw ← read path; load upper env_lookup raw

    unfoldable pub main : Command → Ending S
    unfolding check_lines providers_ending
    main (serve path listen true) = runs (override_listen listen mock_config)
    main (serve path listen false) = elim (from_file_with_env path) [
      | ok loaded ↦ runs (override_listen listen loaded.0)
      | err e ↦ fails e
    ]
    main (check path) = elim (from_file_with_env path) [
      | ok (c, sources) ↦ prints (check_lines path c sources)
      | err e ↦ fails e
    ]
    main (providers path) = elim (from_file_with_env path) [
      | ok loaded ↦ providers_ending loaded.0.providers
      | err e ↦ fails e
    ]
