-- ===== src/Prelude/Assoc.antt =====
-- Maps keyed by texts, as association lists, and the concatenation of texts.
use Prim.Native.String.{String, ◌++◌ as append}
use mathlib.Core.Path.{◌≡◌, refl}
use mathlib.Core.Bool.{false}
use mathlib.Core.Option.{Option, none, some}
use mathlib.Core.List.{List, [], ◌∷◌, map}
use native.Mathlib.Omega.{arith}
use arbstr.Prelude.Tests.{if◌then◌else◌, str_eq, str_eq_iff}

infixl 60 ◌<>◌
abbrev pub ◌<>◌ : String → String → String
s <> t = append s t

module _ {ℓ} {V : Type ℓ} where
  unfoldable pub lookup : String → List (String × V) → Option V
  lookup k [] = none
  lookup k ((j, v) ∷ m) = if str_eq j k then some v else lookup k m

  unfoldable pub insert : String → V → List (String × V) → List (String × V)
  insert k v [] = (k, v) ∷ []
  insert k v ((j, w) ∷ m) = if str_eq j k then (k, v) ∷ m else (j, w) ∷ insert k v m

  -- A change in place: an absent key changes nothing.
  unfoldable pub modify : String → (V → V) → List (String × V) → List (String × V)
  modify k f [] = []
  modify k f ((j, v) ∷ m) = if str_eq j k then (j, f v) ∷ m else (j, v) ∷ modify k f m

  pub lookup-insert :
      (k j : String) (v : V) (m : List (String × V))
      → lookup j (insert k v m) ≡ (if str_eq k j then some v else lookup j m)
  unfolding lookup insert
  lookup-insert k j v [] = refl
  lookup-insert k j v ((i, w) ∷ m) =
      ground (arith, str_eq_iff k j, str_eq_iff i k, str_eq_iff i j, lookup-insert k j v m)

  pub lookup-modify_self :
      (k : String) (f : V → V) (m : List (String × V)) (v : V)
      → lookup k m ≡ some v
      → lookup k (modify k f m) ≡ some (f v)
  unfolding lookup modify
  lookup-modify_self k f [] v h = cc
  lookup-modify_self k f ((i, w) ∷ m) v h = ground (arith, lookup-modify_self k f m v)

  pub lookup-modify-none :
      (k : String) (f : V → V) (m : List (String × V)) → lookup k m ≡ none → modify k f m ≡ m
  unfolding lookup modify
  lookup-modify-none k f [] h = refl
  lookup-modify-none k f ((i, w) ∷ m) h = ground (arith, lookup-modify-none k f m)

  pub lookup-modify_ne :
      (k j : String) (f : V → V) (m : List (String × V))
      → str_eq k j ≡ false
      → lookup j (modify k f m) ≡ lookup j m
  unfolding lookup modify
  lookup-modify_ne k j f [] h = refl
  lookup-modify_ne k j f ((i, w) ∷ m) h =
      ground (arith, str_eq_iff k j, str_eq_iff i k, str_eq_iff i j, lookup-modify_ne k j f m)

  pub modify_keys :
      (k : String) (f : V → V) (m : List (String × V))
      → map (λ e. e.0) (modify k f m) ≡ map (λ e. e.0) m
  unfolding modify
  modify_keys k f [] = refl
  modify_keys k f ((i, w) ∷ m) = ground (arith, modify_keys k f m)
