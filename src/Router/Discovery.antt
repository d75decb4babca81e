-- ===== src/Router/Discovery.antt =====
-- src/proxy/discovery.rs: `discover_models`. The HTTP client is an argument: what it answers to the
-- request that it is given. The timeout of 5 s is one of its errors.
use arbstr.Prelude.{
  ℕ, ◌<>◌, ◌≡◌, refl, Bool, true, Option, String, List, [], ◌∷◌, map, leb, ◌&&◌, if◌then◌else◌,
  Bool-cases, inl, inr, arith,
}
use arbstr.Router.Types.{ProviderConfig}
use arbstr.Router.Selector.{serves}

-- The request to the endpoint: its URL and the bearer token, if there is one.
pub record Discovery : Type 0 where
  pub url : String
  pub bearer : Option String

-- What comes back: a status with the model ids, or with the text of a parse error; or no answer.
pub data Endpoint : Type 0 where
  listed : ℕ → List String → Endpoint
  unreadable : ℕ → String → Endpoint
  unreachable : String → Endpoint

abbrev is_success : ℕ → Bool
is_success status = leb 200 status && leb status 299

discovered : ProviderConfig → Endpoint → ProviderConfig
discovered p (listed status ids) = if is_success status then record p { models = ids } else p
discovered p (unreadable status e) = p
discovered p (unreachable e) = p

module _ (trim_end : String → String) (send : Discovery → Endpoint) where
  discover : ProviderConfig → ProviderConfig
  unfolding discovered
  discover p =
      if p.auto_discover
      then discovered p (send (record { url = trim_end p.url <> "/models"; bearer = p.api_key }))
      else p

  unfoldable pub discover_models : List ProviderConfig → List ProviderConfig
  unfolding discover
  discover_models ps = map discover ps

  discover-same :
      (p : ProviderConfig) (e : String)
      → ((d : Discovery) → send d ≡ unreachable e)
      → discover p ≡ p
  unfolding discover discovered
  discover-same p e down = elim (Bool-cases p.auto_discover) [
    | inl a ↦ rw (a, down _) refl
    | inr a ↦ rw a refl
  ]

  discover_all-same :
      (ps : List ProviderConfig) (e : String)
      → ((d : Discovery) → send d ≡ unreachable e)
      → discover_models ps ≡ ps
  unfolding discover_models
  discover_all-same [] e down = refl
  discover_all-same (p ∷ ps) e down =
      let first = discover-same p e down in
      let rest = discover_all-same ps e down in ground (arith, first, rest)

  -- Where no endpoint can be reached, every provider keeps its models; so one that has none serves
  -- every model.
  unreachable-serves :
      (ps : List ProviderConfig) (e : String)
      → ((d : Discovery) → send d ≡ unreachable e)
      → (discover_models ps ≡ ps)
        × ((p : ProviderConfig) (model : String) → p.models ≡ [] → serves model p ≡ true)
  unreachable-serves ps e down =
      (discover_all-same ps e down, λ p model none_left. rw none_left refl)
