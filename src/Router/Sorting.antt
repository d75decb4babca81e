-- ===== src/Router/Sorting.antt =====
-- src/router/selector.rs: the stable `sort_by_key` of the candidates, by any key.
use arbstr.Prelude.{
  ℕ, ◌≤◌, ◌≡◌, refl, false, List, [], ◌∷◌, arith, leb, leb→le, if◌then◌else◌, All, is_empty,
  Bool-cases, inl, inr,
}

module _ {ℓ} {A : Type ℓ} where
  -- An entry goes before the first one whose key is not smaller, so equal keys keep their order.
  pub insert_by_key : (A → ℕ) → A → List A → List A
  insert_by_key key x [] = x ∷ []
  insert_by_key key x (y ∷ ys) =
      if leb (key x) (key y) then x ∷ y ∷ ys else y ∷ insert_by_key key x ys

  unfoldable pub sort_by_key : (A → ℕ) → List A → List A
  unfolding insert_by_key
  sort_by_key key [] = []
  sort_by_key key (x ∷ xs) = insert_by_key key x (sort_by_key key xs)

  -- The keys do not fall along the list, and none is below the bound.
  abbrev pub AtLeast : (A → ℕ) → ℕ → List A → Type 0
  AtLeast key n [] = Unit
  AtLeast key n (x ∷ xs) = (n ≤ key x) × AtLeast key n xs

  abbrev pub IsSorted : (A → ℕ) → List A → Type 0
  IsSorted key [] = Unit
  IsSorted key (x ∷ xs) = AtLeast key (key x) xs × IsSorted key xs

  pub AtLeast-mono :
      (key : A → ℕ) (m n : ℕ) (xs : List A) → m ≤ n → AtLeast key n xs → AtLeast key m xs
  AtLeast-mono key m n [] h a = tt
  AtLeast-mono key m n (x ∷ xs) h a = (omega arith, AtLeast-mono key m n xs h a.1)

  AtLeast-insert :
      (key : A → ℕ) (n : ℕ) (x : A) (ys : List A)
      → n ≤ key x
      → AtLeast key n ys
      → AtLeast key n (insert_by_key key x ys)
  unfolding insert_by_key
  AtLeast-insert key n x [] h a = (h, tt)
  AtLeast-insert key n x (y ∷ ys) h a = elim (Bool-cases (leb (key x) (key y))) [
    | inl e ↦ rw (e, insert_by_key) (h, (a.0, a.1))
    | inr e ↦ rw (e, insert_by_key) (a.0, AtLeast-insert key n x ys h a.1)
  ]

  insert-IsSorted :
      (key : A → ℕ) (x : A) (ys : List A) → IsSorted key ys → IsSorted key (insert_by_key key x ys)
  unfolding insert_by_key
  insert-IsSorted key x [] s = (tt, tt)
  insert-IsSorted key x (y ∷ ys) s = elim (Bool-cases (leb (key x) (key y))) [
    | inl e ↦
        rw (e, insert_by_key)
          ((leb→le _ _ e, AtLeast-mono key (key x) (key y) ys (leb→le _ _ e) s.0), (s.0, s.1))
    | inr e ↦
        rw (e, insert_by_key)
          (AtLeast-insert key (key y) x ys (ground arith) s.0, insert-IsSorted key x ys s.1)
  ]

  pub sort_by_key-IsSorted : (key : A → ℕ) (xs : List A) → IsSorted key (sort_by_key key xs)
  unfolding sort_by_key
  sort_by_key-IsSorted key [] = tt
  sort_by_key-IsSorted key (x ∷ xs) = insert-IsSorted key x _ (sort_by_key-IsSorted key xs)

  -- What holds of every entry before the sort holds of every entry after it.
  All-insert {κ} :
      (P : A → Type κ) (key : A → ℕ) (x : A) (ys : List A)
      → P x
      → All P ys
      → All P (insert_by_key key x ys)
  unfolding insert_by_key
  All-insert P key x [] p a = (p, tt)
  All-insert P key x (y ∷ ys) p a = elim (Bool-cases (leb (key x) (key y))) [
    | inl e ↦ rw (e, insert_by_key) (p, (a.0, a.1))
    | inr e ↦ rw (e, insert_by_key) (a.0, All-insert P key x ys p a.1)
  ]

  pub All-sort {κ} :
      (P : A → Type κ) (key : A → ℕ) (xs : List A) → All P xs → All P (sort_by_key key xs)
  unfolding sort_by_key
  All-sort P key [] a = tt
  All-sort P key (x ∷ xs) a = All-insert P key x (sort_by_key key xs) a.0 (All-sort P key xs a.1)

  All-uninsert {κ} :
      (P : A → Type κ) (key : A → ℕ) (x : A) (ys : List A)
      → All P (insert_by_key key x ys)
      → P x × All P ys
  unfolding insert_by_key
  All-uninsert P key x [] a = a
  All-uninsert P key x (y ∷ ys) a = elim (Bool-cases (leb (key x) (key y))) [
    | inl e ↦ rw (e, insert_by_key) at a
    | inr e ↦
        let b : P y × All P (insert_by_key key x ys) = rw (e, insert_by_key) at a in
        let c = All-uninsert P key x ys b.1 in (c.0, (b.0, c.1))
  ]

  -- And the other way round: the sort drops no entry.
  pub All-unsort {κ} :
      (P : A → Type κ) (key : A → ℕ) (xs : List A) → All P (sort_by_key key xs) → All P xs
  unfolding sort_by_key
  All-unsort P key [] a = tt
  All-unsort P key (x ∷ xs) a =
      let b = All-uninsert P key x (sort_by_key key xs) a in (b.0, All-unsort P key xs b.1)

  insert-ne-nil : (key : A → ℕ) (x : A) (ys : List A) → is_empty (insert_by_key key x ys) ≡ false
  unfolding insert_by_key
  insert-ne-nil key x [] = refl
  insert-ne-nil key x (y ∷ ys) = ground arith

  pub is_empty-sort : (key : A → ℕ) (xs : List A) → is_empty (sort_by_key key xs) ≡ is_empty xs
  unfolding sort_by_key
  is_empty-sort key [] = refl
  is_empty-sort key (x ∷ xs) = insert-ne-nil key x (sort_by_key key xs)
