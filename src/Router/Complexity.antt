-- ===== src/Router/Complexity.antt =====
-- src/router/complexity.rs: the tier of a score, over an order of `f64`.
use arbstr.Prelude.{Bool, if◌then◌else◌}
use arbstr.Router.Types.{Tier, local, standard, frontier}

-- `score_to_max_tier`; `lt` is `<` of `f64`.
unfoldable pub score_to_max_tier : {C : Type 0} → (C → C → Bool) → C → C → C → Tier
score_to_max_tier lt score low high =
    if lt score low then local else if lt high score then frontier else standard
