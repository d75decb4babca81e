-- ===== src/Api/Listing.antt =====
-- src/proxy/handlers.rs: `list_providers`, over bytes.
use arbstr.Prelude.{
  ℕ, ◌≡◌, ◌⊎◌, ◌↔◌, refl, inl, inr, ◌&&◌, Bool, true, false, Option, none, some, String, List, [],
  ◌∷◌, length, ltb, not, ◌++◌, Bool-cases, Any, Option-cases,
}
use arbstr.Router.Types.{tier_text}
use arbstr.Config.Expand.{Bytes}
use arbstr.Config.Keys.{ApiKey, Provider, masked_prefix, is_continuation}
use arbstr.Sse.Observer.{ascii, take, byte_at}

pub record ListedProvider : Type 0 where
  pub name : Bytes
  pub models : List Bytes
  pub input_rate_sats_per_1k : ℕ
  pub output_rate_sats_per_1k : ℕ
  pub base_fee_sats : ℕ
  pub tier : String
  pub api_key : Option Bytes

-- The entry of a provider, with the key to show.
with_mask : Provider ApiKey → Option Bytes → ListedProvider
with_mask p key = record {
  name = p.name;
  models = p.models;
  input_rate_sats_per_1k = p.input_rate;
  output_rate_sats_per_1k = p.output_rate;
  base_fee_sats = p.base_fee;
  tier = tier_text p.tier;
  api_key = key;
}

-- The key to show; the outer `none` is a panic.
shown_key : Option ApiKey → Option (Option Bytes)
shown_key none = some none
shown_key (some key) = elim (masked_prefix key) [ none ↦ none | some m ↦ some (some m) ]

-- `list_providers`; `none` is a panic.
unfoldable pub list_providers : List (Provider ApiKey) → Option (List ListedProvider)
unfolding with_mask shown_key
list_providers [] = some []
list_providers (p ∷ ps) =
    let rest = list_providers ps in
    elim (shown_key p.api_key) [
      | none ↦ none
      | some key ↦ elim rest [ none ↦ none | some entries ↦ some (with_mask p key ∷ entries) ]
    ]

-- A key of ten bytes or more of which the sixth byte does not end a character.
abbrev pub splits_character : Option ApiKey → Bool
splits_character none = false
splits_character (some key) =
    not (ltb (length key.secret) 10) && is_continuation (byte_at key.secret 6)

pub masked-splits :
    (key : ApiKey)
    → ((masked_prefix key ≡ none) × (splits_character (some key) ≡ true))
      ⊎ ((m : Bytes) × (masked_prefix key ≡ some m) × (splits_character (some key) ≡ false))
unfolding masked_prefix
masked-splits key = elim (Bool-cases (ltb (length key.secret) 10)) [
  | inl e ↦ inr (ascii "[REDACTED]", rw (masked_prefix, e) refl, rw e refl)
  | inr e ↦ elim (Bool-cases (is_continuation (byte_at key.secret 6))) [
    | inl c ↦ inl (rw (masked_prefix, e, c) refl, rw (e, c) refl)
    | inr c ↦
        inr (take 6 key.secret ++ ascii "...***", rw (masked_prefix, e, c) refl, rw (e, c) refl)
  ]
]

shown-splits :
    (key : Option ApiKey)
    → ((shown_key key ≡ none) × (splits_character key ≡ true))
      ⊎ ((m : Option Bytes) × (shown_key key ≡ some m) × (splits_character key ≡ false))
unfolding shown_key
shown-splits none = inr (none, refl, refl)
shown-splits (some key) = elim (masked-splits key) [
  | inl (e, split) ↦ inl (rw (shown_key, e) refl, split)
  | inr (m, e, whole) ↦ inr (some m, rw (shown_key, e) refl, whole)
]

-- Listing the providers panics exactly where some provider has a key of ten bytes or more in which
-- no character begins after the sixth byte.
pub list_providers-panics :
    (ps : List (Provider ApiKey))
    → (list_providers ps ≡ none) ↔ Any (λ p. splits_character p.api_key ≡ true) ps
unfolding list_providers
list_providers-panics [] = (λ e. cc e, λ a. absurd a)
list_providers-panics (p ∷ ps) = elim (shown-splits p.api_key) [
  | inl (none_shown, split) ↦ (λ e. inl split, λ a. rw (list_providers, none_shown) refl)
  | inr (m, shown, whole) ↦ elim (Option-cases (list_providers ps)) [
    | inl stops ↦
        (λ e. inr ((list_providers-panics ps).0 stops), λ a. rw (list_providers, shown, stops) refl)
    | inr (entries, goes) ↦ (
      λ e. let h = rw (list_providers, shown, goes) at e in cc h,
      λ a. elim a [
        | inl split ↦ cc (split, whole)
        | inr more ↦ let stops = (list_providers-panics ps).1 more in cc (goes, stops)
      ],
    )
  ]
]
