-- ===== src/Examples/Commands.antt =====
-- Runs of the three commands.
use arbstr.Prelude.{ℕ, ◌≡◌, refl, ◌⊎◌, false, Option, none, some, List, [], ◌∷◌}
use arbstr.Sse.Observer.{ascii}
use arbstr.Config.Expand.{Bytes, ConfigError, Loaded, ok, split_reference}
use arbstr.Config.Keys.{
  ApiKey, Settings, KeySource, masked_prefix, load, from_raw_with_lookup, load_providers,
  resolve_key, with_key, validate_providers,
}
use arbstr.Server.Command.{
  Command, serve, check, providers, Others, Ending, fails, panics, mock_providers, key_line,
  listing, providers_ending, check_file_permissions, from_file_with_env, main,
}
use arbstr.Server.CommandLaws.{Agree, main-agrees}
use arbstr.Examples.Files.{raw_provider, unchanged, one_variable}
use arbstr.Examples.Listing.{accented}

-- A file with one provider, whose key has a character over the bytes 5 and 6.
abbrev accented_file : Settings Bytes (Others ℕ)
accented_file = record {
  providers = record raw_provider { api_key = some accented.secret } ∷ [];
  others = record { listen = ascii "127.0.0.1:8080"; rules = []; rest = 8 };
}

abbrev read_accented : Bytes → Loaded (Settings Bytes (Others ℕ))
read_accented path = ok accented_file

abbrev plain_mode : Bytes → Option ℕ
plain_mode path = some 33188

abbrev number : ℕ → Bytes
number n = ascii "1"

-- 33188 is the mode of a regular file that all may read, 0o644 of which is kept.
open_to_all :
    check_file_permissions unchanged one_variable number number read_accented plain_mode 8
      (ascii "config.toml")
    ≡ some (ascii "config.toml", 420)
unfolding check_file_permissions
open_to_all = refl

providers_panics :
    main unchanged one_variable number number read_accented plain_mode 8
      (providers (ascii "config.toml"))
    ≡ panics
unfolding main from_file_with_env load from_raw_with_lookup load_providers resolve_key with_key
    split_reference validate_providers providers_ending listing key_line masked_prefix
providers_panics = refl

mock_is_valid : validate_providers mock_providers ≡ ok tt
unfolding validate_providers
mock_is_valid = refl

main-agrees_example :
    let ends : Command → Ending ℕ =
      λ c. main unchanged one_variable number number read_accented plain_mode 8 c in
    ((e : ConfigError) × (ends (serve (ascii "config.toml") none false) ≡ fails e)
      × (ends (check (ascii "config.toml")) ≡ fails e)
      × (ends (providers (ascii "config.toml")) ≡ fails e))
    ⊎ ((config : Settings ApiKey (Others ℕ)) × (sources : List (Bytes × KeySource)) × Agree
          unchanged one_variable number number read_accented plain_mode 8
          (ascii "config.toml")
          none
          config
          sources)
main-agrees_example =
    main-agrees unchanged one_variable number number read_accented plain_mode 8
      (ascii "config.toml") none
