-- ===== src/Api/Weights.antt =====
-- src/proxy/stats.rs: what the entries of a map weigh together, when one is inserted or removed.
use arbstr.Prelude.{ℕ, ◌+◌, ◌≤◌, ◌≡◌, String, List, [], ◌∷◌, lookup, insert, some, arith}
use arbstr.Storage.Groups.{sum_of}
use arbstr.Api.Stats.{remove}

module _ {V : Type 0} (w : V → ℕ) where
  -- What the entries weigh together.
  abbrev pub weight : List (String × V) → ℕ
  weight m = sum_of (λ e. w e.1) m

  pub insert-le :
      (k : String) (v : V) (m : List (String × V)) → weight (insert k v m) ≤ weight m + w v
  unfolding insert
  insert-le k v [] = omega arith
  insert-le k v ((j, u) ∷ m) = ground (arith, insert-le k v m)

  pub insert_over :
      (k : String) (v old : V) (m : List (String × V))
      → lookup k m ≡ some old
      → weight (insert k v m) + w old ≡ weight m + w v
  unfolding insert lookup
  insert_over k v old [] h = cc
  insert_over k v old ((j, u) ∷ m) h = ground (arith, insert_over k v old m)

  pub weight-remove :
      (k : String) (v : V) (m : List (String × V))
      → lookup k m ≡ some v
      → weight (remove k m) + w v ≡ weight m
  unfolding remove lookup
  weight-remove k v [] h = cc
  weight-remove k v ((j, u) ∷ m) h = ground (arith, weight-remove k v m)
