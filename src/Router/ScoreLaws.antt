-- ===== src/Router/ScoreLaws.antt =====
-- src/router/complexity.rs with the thresholds of src/config.rs: the range of a score, and where a
-- request starts that has little text or no weights.
use arbstr.Prelude.{
  ℕ, ◌<◌, ◌≡◌, refl, ◌⊎◌, ◌↔◌, ap, inl, inr, true, false, none, some, String, List, [], ◌∷◌, ltb,
  lt→ltb, length, Bool-cases,
}
use arbstr.Router.Types.{frontier, standard}
use arbstr.Router.Complexity.{score_to_max_tier}
use arbstr.Router.Cost.{F64}
use arbstr.Router.Score.{
  Floats, Weights, Patterns, min_text_len, signals, weighted, clamp, score_of, score_text,
  conversation, score_complexity,
}
use arbstr.Request.Types.{Message}
use arbstr.Sse.Json.{Json}
use arbstr.Handlers.Chat.{starting_tier}

module _ (f : F64) (x : Floats f.Carrier) (w : Weights f.Carrier) (re : Patterns)
    (to_lowercase : String → String) (byte_len : String → ℕ) (j : Json) where
  open f use {Carrier, from_u64, div}

  -- The total of the weights, as the fold adds them up; it does not depend on the messages.
  abbrev pub weight_total : List (Message j.Value) → Carrier
  weight_total messages =
      (weighted f x w re to_lowercase byte_len
        (signals f x w re to_lowercase byte_len
          (conversation f x w re to_lowercase byte_len j messages) (length messages))
        (from_u64 0, from_u64 0)).1

  score-one :
      (messages : List (Message j.Value))
      → (messages ≡ [])
        ⊎ (byte_len (conversation f x w re to_lowercase byte_len j messages) < min_text_len)
        ⊎ (x.is_zero (weight_total messages) ≡ true)
      → score_complexity f x w re to_lowercase byte_len j messages ≡ from_u64 1
  unfolding score_complexity score_text score_of
  score-one [] h = refl
  score-one (m ∷ more) (inl e) = cc
  score-one (m ∷ more) (inr (inl short)) = rw (lt→ltb _ _ short) refl
  score-one (m ∷ more) (inr (inr zero_weights)) =
      elim (Bool-cases
        (ltb (byte_len (conversation f x w re to_lowercase byte_len j (m ∷ more))) min_text_len)) [
          | inl e ↦ rw e refl
          | inr e ↦ rw (e, zero_weights) refl
        ]

  -- A number that is neither below 0.0 nor above 1.0; NaN is such a one.
  abbrev pub InUnit : Carrier → Type 0
  InUnit c = (x.lt c (from_u64 0) ≡ false) × (x.lt (from_u64 1) c ≡ false)

  clamp-InUnit :
      (c : Carrier)
      → InUnit (from_u64 0)
      → InUnit (from_u64 1)
      → InUnit (clamp f x w re to_lowercase byte_len c (from_u64 0) (from_u64 1))
  unfolding clamp
  clamp-InUnit c zero_in one_in = elim (Bool-cases (x.lt c (from_u64 0))) [
    | inl e ↦ rw e zero_in
    | inr e ↦ elim (Bool-cases (x.lt (from_u64 1) c)) [
      | inl g ↦ rw (e, g) one_in
      | inr g ↦ rw (e, g) (e, g)
    ]
  ]

  score_of-InUnit :
      (sums : Carrier × Carrier)
      → InUnit (from_u64 0)
      → InUnit (from_u64 1)
      → InUnit (score_of f x w re to_lowercase byte_len sums)
  unfolding score_of
  score_of-InUnit (ws, wt) zero_in one_in = elim (Bool-cases (x.is_zero wt)) [
    | inl e ↦ rw e one_in
    | inr e ↦ rw e (clamp-InUnit (div ws wt) zero_in one_in)
  ]

  score-InUnit :
      (messages : List (Message j.Value))
      → InUnit (from_u64 0)
      → InUnit (from_u64 1)
      → InUnit (score_complexity f x w re to_lowercase byte_len j messages)
  unfolding score_complexity score_text
  score-InUnit [] zero_in one_in = one_in
  score-InUnit (m ∷ more) zero_in one_in =
      let text = conversation f x w re to_lowercase byte_len j (m ∷ more) in
      elim (Bool-cases (ltb (byte_len text) min_text_len)) [
        | inl e ↦ rw e one_in
        | inr e ↦ rw e (score_of-InUnit _ zero_in one_in)
      ]

  pair-frontier :
      (c low high : Carrier)
      → (starting_tier x.lt low high c none ≡ (some c, frontier))
        ↔ ((x.lt c low ≡ false) × (x.lt high c ≡ true))
  unfolding starting_tier score_to_max_tier
  pair-frontier c low high = elim (Bool-cases (x.lt c low)) [
    | inl e ↦ (
      λ h. let q = rw (starting_tier, score_to_max_tier, e) at (ap (λ p. p.1) h) in cc q,
      λ p. cc (e, p.0),
    )
    | inr e ↦ elim (Bool-cases (x.lt high c)) [
      | inl g ↦ (λ h. (e, g), λ p. rw (e, g) refl)
      | inr g ↦ (
        λ h. let q = rw (starting_tier, score_to_max_tier, e, g) at (ap (λ p. p.1) h) in cc q,
        λ p. cc (g, p.1),
      )
    ]
  ]

  -- For every list of messages, all weights, and whatever the patterns find, if `<` orders 0.0 and 1.0
  -- as it should: the score is neither below 0.0 nor above 1.0 (NaN is neither). Without a complexity
  -- header, a request with no messages, with fewer than ten bytes of text, or with weights that add up
  -- to zero starts at the frontier tier with the score 1.0 exactly where the low threshold is not above
  -- 1.0 and the high one is below it; and with the thresholds 0.0 and 1.0 every request without
  -- the header starts at the standard tier.
  pub score_complexity-starts :
      (low high : Carrier) (messages : List (Message j.Value))
      → x.lt (from_u64 0) (from_u64 0) ≡ false
      → x.lt (from_u64 1) (from_u64 0) ≡ false
      → x.lt (from_u64 1) (from_u64 1) ≡ false
      → let score = score_complexity f x w re to_lowercase byte_len j messages in
        InUnit score
        × ((messages ≡ [])
              ⊎ (byte_len (conversation f x w re to_lowercase byte_len j messages) < min_text_len)
              ⊎ (x.is_zero (weight_total messages) ≡ true)
            → (starting_tier x.lt low high score none ≡ (some (from_u64 1), frontier))
              ↔ ((x.lt (from_u64 1) low ≡ false) × (x.lt high (from_u64 1) ≡ true)))
        × (starting_tier x.lt (from_u64 0) (from_u64 1) score none ≡ (some score, standard))
  unfolding starting_tier score_to_max_tier
  score_complexity-starts low high messages zero_zero one_zero one_one =
      let (above, below) = score-InUnit messages (zero_zero, one_zero) (one_zero, one_one) in
      (
        (above, below),
        λ h. rw (score-one messages h) (pair-frontier (from_u64 1) low high),
        rw (above, below) refl,
      )
