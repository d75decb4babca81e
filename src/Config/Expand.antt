-- ===== src/Config/Expand.antt =====
-- src/config.rs: `expand_env_vars_with`, over bytes. Its `lookup` is the environment, an argument.
use arbstr.Prelude.{
  ℕ, zero, suc, ◌==◌, ◌&&◌, Option, none, some, List, [], ◌∷◌, ◌++◌, length, is_empty,
  if◌then◌else◌,
}
use arbstr.Sse.Observer.{ascii}

abbrev pub Bytes : Type 0
Bytes = List ℕ

-- `ConfigError`; an error of another crate is its text.
pub data ConfigError : Type 0 where
  io : Bytes → Bytes → ConfigError
  parse : Bytes → ConfigError
  validation : Bytes → ConfigError
  env_var : Bytes → Bytes → Bytes → ConfigError

pub data Loaded {ℓ} (A : Type ℓ) : Type ℓ where
  ok : A → Loaded A
  err : ConfigError → Loaded A

infixl 5 ◌>>=◌
abbrev pub ◌>>=◌ {ℓ κ} : {A : Type ℓ} {B : Type κ} → Loaded A → (A → Loaded B) → Loaded B
ok a >>= f = f a
err e >>= f = err e

-- The slices of a text, from those of the text without its first byte.
abbrev pub keep : ℕ → Option (Bytes × Bytes) → Option (Bytes × Bytes)
keep c none = none
keep c (some (before, after)) = some (c ∷ before, after)

-- The slices before a `$` that a `{` follows and after the two; it is `find("${")` with its slices.
unfoldable pub split_reference : Bytes → Option (Bytes × Bytes)
split_reference [] = none
split_reference (c ∷ []) = none
split_reference (c ∷ d ∷ s) =
    let rest = keep c (split_reference (d ∷ s)) in
    if (c == b'$') && (d == b'{') then some ([], s) else rest

-- The slices before and after the first `}`.
unfoldable pub split_brace : Bytes → Option (Bytes × Bytes)
split_brace [] = none
split_brace (c ∷ s) = let rest = keep c (split_brace s) in if c == b'}' then some ([], s) else rest

module _ (lookup : Bytes → Option Bytes) (input provider_name : Bytes) where
  abbrev pub unclosed : ConfigError
  unclosed =
      env_var (ascii "<unclosed>") provider_name (ascii "Unclosed '${' in config value: " ++ input)

  abbrev pub empty_name : ConfigError
  empty_name = env_var [] provider_name (ascii "Empty variable name in '${}' reference")

  abbrev pub unset : Bytes → ConfigError
  unset name = env_var name provider_name (
      ascii "Environment variable '"
      ++ (name
          ++ (ascii "' is not set (referenced in provider '" ++ (provider_name ++ ascii "')"))))

  -- The value of a reference.
  abbrev pub value_of : Bytes → Loaded Bytes
  value_of name = elim (lookup name) [ none ↦ err (unset name) | some v ↦ ok v ]

  -- The name and the rest after a `${`.
  abbrev pub reference : Option (Bytes × Bytes) → Loaded (Bytes × Bytes)
  reference none = err unclosed
  reference (some (name, rest)) = if is_empty name then err empty_name else ok (name, rest)

  -- The `while let` loop; a round takes at least a `${` out of the rest, so more rounds than bytes
  -- are enough.
  unfoldable pub expand : ℕ → Bytes → Bytes → Loaded Bytes
  expand zero result rest = ok (result ++ rest)
  expand (suc fuel) result rest = elim (split_reference rest) [
    | none ↦ ok (result ++ rest)
    | some (before, after) ↦ do
      found ← reference (split_brace after)
      value ← value_of found.0
      expand fuel (result ++ (before ++ value)) found.1
  ]

  -- A text without `${` is returned as it is.
  unfoldable pub expand_env_vars_with : Loaded Bytes
  expand_env_vars_with = elim (split_reference input) [
    | none ↦ ok input
    | some _ ↦ expand (suc (length input)) [] input
  ]
