-- ===== src/Config/Template.antt =====
-- src/config.rs: expansion against texts that are written as literals and references.
use arbstr.Prelude.{
  ℕ, zero, suc, ◌<◌, ◌≡◌, refl, ap, ◌∙◌, false, Option, none, some, List, [], ◌∷◌, ◌++◌, length,
  length-append, All, arith, is_empty, ◌⊎◌, inl, inr,
}
use mathlib.Core.List.{append_assoc}
use arbstr.Config.Expand.{
  Bytes, ConfigError, Loaded, ok, err, ◌>>=◌, split_reference, split_brace, value_of, expand,
  expand_env_vars_with,
}

-- A literal, and the name of the variable that is referred to after it.
abbrev pub Piece : Type 0
Piece = Bytes × Bytes

-- A text as pieces and a last literal.
abbrev pub render : List Piece → Bytes → Bytes
render [] tail = tail
render ((text, name) ∷ ps) tail = text ++ (b'$' ∷ b'{' ∷ (name ++ b'}' ∷ render ps tail))

-- No reference begins in a literal, and a name is not empty and has no `}`.
abbrev pub IsPiece : Piece → Type 0
IsPiece (text, name) =
    (split_reference text ≡ none) × (is_empty name ≡ false) × (split_brace name ≡ none)

split_brace-append :
    (name rest : Bytes)
    → split_brace name ≡ none
    → split_brace (name ++ b'}' ∷ rest) ≡ some (name, rest)
unfolding split_brace
split_brace-append [] rest h = refl
split_brace-append (c ∷ name) rest h = ground (arith, split_brace-append name rest)

split_reference-append :
    (text rest : Bytes)
    → split_reference text ≡ none
    → split_reference (text ++ (b'$' ∷ b'{' ∷ rest)) ≡ some (text, rest)
unfolding split_reference
split_reference-append [] rest h = refl
split_reference-append (c ∷ []) rest h = ground arith
split_reference-append (c ∷ d ∷ text) rest h =
    ground (arith, split_reference-append (d ∷ text) rest)

shorter :
    (text name rest : Bytes) → length rest < length (text ++ (b'$' ∷ b'{' ∷ (name ++ b'}' ∷ rest)))
shorter text name rest = omega (
  arith,
  length-append text (b'$' ∷ b'{' ∷ (name ++ b'}' ∷ rest)),
  length-append name (b'}' ∷ rest),
)

Loaded-cases :
    {A : Type 0} (a : Loaded A) → ((x : A) × (a ≡ ok x)) ⊎ ((e : ConfigError) × (a ≡ err e))
Loaded-cases (ok x) = inl (x, refl)
Loaded-cases (err e) = inr (e, refl)

module _ (lookup : Bytes → Option Bytes) (input provider_name : Bytes) where
  -- What a text should become: its literals, with the values of the variables between them, or the
  -- error of the first variable that is not set. A value is not looked into.
  abbrev pub substitute : List Piece → Bytes → Loaded Bytes
  substitute [] tail = ok tail
  substitute ((text, name) ∷ ps) tail = do
    value ← value_of lookup input provider_name name
    rest ← substitute ps tail
    ok (text ++ (value ++ rest))

  after : Bytes → Loaded Bytes → Loaded Bytes
  after result (ok rest) = ok (result ++ rest)
  after result (err e) = err e

  regroup :
      (result text value : Bytes) (s : Loaded Bytes)
      → after (result ++ (text ++ value)) s
        ≡ after result (s >>= λ rest. ok (text ++ (value ++ rest)))
  unfolding after
  regroup result text value (ok rest) = ap ok (
      append_assoc result (text ++ value) rest
      ∙ ap (λ l. result ++ l) (append_assoc text value rest))
  regroup result text value (err e) = refl

  expand-substitute :
      (ps : List Piece) (tail : Bytes) (fuel : ℕ) (result : Bytes)
      → All IsPiece ps
      → split_reference tail ≡ none
      → length (render ps tail) < fuel
      → expand lookup input provider_name fuel result (render ps tail)
        ≡ after result (substitute ps tail)
  unfolding expand after
  expand-substitute ps tail zero result a h lt = absurd (omega arith)
  expand-substitute [] tail (suc fuel) result a h lt = rw (h, expand) refl
  expand-substitute ((text, name) ∷ ps) tail (suc fuel) result (p, a) h lt =
      rw
        (
          split_reference-append text (name ++ b'}' ∷ render ps tail) p.0,
          expand,
          split_brace-append name (render ps tail) p.2,
          p.1,
        )
        (elim (Loaded-cases (value_of lookup input provider_name name)) [
          | inl (value, n) ↦ rw n (
              expand-substitute ps tail fuel (result ++ (text ++ value)) a h
                (omega (arith, lt, shorter text name (render ps tail)))
              ∙ regroup result text value (substitute ps tail))
          | inr (e, n) ↦ rw n refl
        ])

  after_nil : (s : Loaded Bytes) → after [] s ≡ s
  unfolding after
  after_nil (ok rest) = refl
  after_nil (err e) = refl

-- For every text that is written as literals and references: its expansion is the literals with the
-- values of the variables between them, or the error that the first variable without a value
-- gives; a `${` inside a value is not expanded again.
pub expand_env_vars_with-render :
    (lookup : Bytes → Option Bytes) (provider_name : Bytes) (ps : List Piece) (tail : Bytes)
    → All IsPiece ps
    → split_reference tail ≡ none
    → expand_env_vars_with lookup (render ps tail) provider_name
      ≡ substitute lookup (render ps tail) provider_name ps tail
unfolding expand_env_vars_with
expand_env_vars_with-render lookup provider_name [] tail a h = rw (h, expand_env_vars_with) refl
expand_env_vars_with-render lookup provider_name ((text, name) ∷ ps) tail a h =
    let input = render ((text, name) ∷ ps) tail in
    rw (split_reference-append text (name ++ b'}' ∷ render ps tail) a.0.0, expand_env_vars_with)
      (expand-substitute lookup input provider_name ((text, name) ∷ ps) tail (suc (length input)) []
          a h (omega arith)
        ∙ after_nil lookup input provider_name
            (substitute lookup input provider_name ((text, name) ∷ ps) tail))
