-- ===== src/Config/Keys.antt =====
-- src/config.rs: the providers' keys and where they come from, over bytes. `upper` is the Unicode
-- `str::to_uppercase`; the environment is an argument. The other parts of the configuration are
-- passed on as they are, and stand for values of any types.
use arbstr.Prelude.{
  ℕ, ◌==◌, ◌||◌, ◌&&◌, Bool, Option, none, some, List, [], ◌∷◌, ◌++◌, map, length, ltb, leb,
  is_empty, if◌then◌else◌,
}
use arbstr.Router.Types.{Tier}
use arbstr.Sse.Observer.{ascii, take, byte_at}
use arbstr.Config.Expand.{
  Bytes, validation, Loaded, ok, err, ◌>>=◌, split_reference, expand_env_vars_with,
}

-- `ApiKey`, the text of a key.
pub record ApiKey : Type 0 where
  pub secret : Bytes

-- Whether a byte begins no character: `is_char_boundary` is false at it.
abbrev pub is_continuation : ℕ → Bool
is_continuation b = leb 128 b && leb b 191

-- `ApiKey::masked_prefix`: a slice that ends inside a character is a panic, `none`.
unfoldable pub masked_prefix : ApiKey → Option Bytes
masked_prefix k =
    if ltb (length k.secret) 10
    then some (ascii "[REDACTED]")
    else if is_continuation (byte_at k.secret 6)
    then none
    else some (take 6 k.secret ++ ascii "...***")

pub data KeySource : Type 0 where
  literal : KeySource
  env_expanded : KeySource
  convention : Bytes → KeySource
  no_key : KeySource

-- `RawProviderConfig` and `ProviderConfig`, which differ in the key.
pub record Provider (K : Type 0) : Type 0 where
  pub name : Bytes
  pub url : Bytes
  pub api_key : Option K
  pub models : List Bytes
  pub input_rate : ℕ
  pub output_rate : ℕ
  pub base_fee : ℕ
  pub tier : Tier
  pub auto_discover : Bool

underscored : ℕ → ℕ
underscored b = if b == b'-' || b == b' ' then b'_' else b

module _ (upper : Bytes → Bytes) (env_lookup : Bytes → Option Bytes) where
  -- `convention_env_var_name`.
  unfoldable pub convention_env_var_name : Bytes → Bytes
  unfolding underscored
  convention_env_var_name provider_name =
      ascii "ARBSTR_" ++ (map underscored (upper provider_name) ++ ascii "_API_KEY")

  by_convention : Bytes → Option Bytes → Option ApiKey × KeySource
  by_convention var_name none = (none, no_key)
  by_convention var_name (some value) = (some (record { secret = value }), convention var_name)

  -- The `match rp.api_key`.
  unfoldable pub resolve_key : Bytes → Option Bytes → Loaded (Option ApiKey × KeySource)
  unfolding by_convention
  resolve_key name none =
      let var_name = convention_env_var_name name in
      ok (by_convention var_name (env_lookup var_name))
  resolve_key name (some raw_key) = elim (split_reference raw_key) [
    | none ↦ ok (some (record { secret = raw_key }), literal)
    | some _ ↦ do
      expanded ← expand_env_vars_with env_lookup raw_key name
      ok (some (record { secret = expanded }), env_expanded)
  ]

  unfoldable pub with_key : Provider Bytes → Option ApiKey → Provider ApiKey
  with_key p key = record {
    name = p.name;
    url = p.url;
    api_key = key;
    models = p.models;
    input_rate = p.input_rate;
    output_rate = p.output_rate;
    base_fee = p.base_fee;
    tier = p.tier;
    auto_discover = p.auto_discover;
  }

  -- The loop of `from_raw_with_lookup`, for the providers and the sources of their keys.
  unfoldable pub load_providers :
      List (Provider Bytes) → Loaded (List (Provider ApiKey) × List (Bytes × KeySource))
  unfolding with_key
  load_providers [] = ok ([], [])
  load_providers (p ∷ ps) = do
    key ← resolve_key p.name p.api_key
    rest ← load_providers ps
    ok (with_key p key.0 ∷ rest.0, (p.name, key.1) ∷ rest.1)

-- `RawConfig` and `Config`, with the parts that are passed on.
pub record Settings (K S : Type 0) : Type 0 where
  pub providers : List (Provider K)
  pub others : S

unfoldable pub from_raw_with_lookup :
    {S : Type 0}
    → (Bytes → Bytes)
    → (Bytes → Option Bytes)
    → Settings Bytes S
    → Loaded (Settings ApiKey S × List (Bytes × KeySource))
from_raw_with_lookup upper env_lookup raw = do
  loaded ← load_providers upper env_lookup raw.providers
  ok (record { providers = loaded.0; others = raw.others }, loaded.1)

-- `Config::validate`: every provider has a URL.
unfoldable pub validate_providers : {K : Type 0} → List (Provider K) → Loaded (Unit {0})
validate_providers [] = ok tt
validate_providers (p ∷ ps) =
    let rest = validate_providers ps in
    if is_empty p.url
    then err (validation (ascii "Provider '" ++ (p.name ++ ascii "' has empty URL")))
    else rest

-- `from_file_with_env`, after the file is read and parsed.
unfoldable pub load :
    {S : Type 0}
    → (Bytes → Bytes)
    → (Bytes → Option Bytes)
    → Settings Bytes S
    → Loaded (Settings ApiKey S × List (Bytes × KeySource))
load upper env_lookup raw = do
  loaded ← from_raw_with_lookup upper env_lookup raw
  checked ← validate_providers loaded.0.providers
  ok loaded
