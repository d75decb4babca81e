-- ===== src/Request/Laws.antt =====
-- src/proxy/types.rs: which prompt is read, and what stream options are sent.
use arbstr.Prelude.{
  ◌≡◌, refl, sym, ap, subst, ◌∙◌, ◌⊎◌, inl, inr, Bool, true, false, none, some, List, [], ◌∷◌, ◌++◌,
  find, All, Bool-cases,
}
use mathlib.Core.List.{reverse, reverse-append, reverse-cons, reverse-reverse, append_assoc}
use arbstr.Sse.Json.{Json}
use arbstr.Request.Types.{Message, ChatCompletionRequest, content_text, is_user, user_prompt}

module _ {A : Type 0} (p : A → Bool) where
  -- A list cut at an entry that passes the test, where those of `skipped` do not.
  pub record CutAt (xs : List A) (x : A) : Type 0 where
    pub skipped : List A
    pub rest : List A
    pub split : xs ≡ skipped ++ x ∷ rest
    pub passes : p x ≡ true
    pub none_skipped : All (λ y. p y ≡ false) skipped

  find-cases :
      (xs : List A)
      → ((find p xs ≡ none) × All (λ y. p y ≡ false) xs)
        ⊎ ((x : A) × (find p xs ≡ some x) × CutAt xs x)
  find-cases [] = inl (refl, tt)
  find-cases (x ∷ xs) = elim (Bool-cases (p x)) [
    | inl e ↦ inr (
      x,
      rw e refl,
      record { skipped = []; rest = xs; split = refl; passes = e; none_skipped = tt },
    )
    | inr e ↦ elim (find-cases xs) [
      | inl (f, a) ↦ inl (rw e f, (e, a))
      | inr (y, f, c) ↦ inr (
        y,
        rw e f,
        record {
          skipped = x ∷ c.skipped;
          rest = c.rest;
          split = ap (λ l. x ∷ l) c.split;
          passes = c.passes;
          none_skipped = (e, c.none_skipped);
        },
      )
    ]
  ]

  All-append :
      (xs ys : List A)
      → All (λ y. p y ≡ false) xs
      → All (λ y. p y ≡ false) ys
      → All (λ y. p y ≡ false) (xs ++ ys)
  All-append [] ys a b = b
  All-append (x ∷ xs) ys a b = (a.0, All-append xs ys a.1 b)

  All-reverse : (xs : List A) → All (λ y. p y ≡ false) xs → All (λ y. p y ≡ false) (reverse xs)
  All-reverse [] a = tt
  All-reverse (x ∷ xs) a =
      subst (All (λ y. p y ≡ false)) (sym (reverse-cons x xs))
        (All-append (reverse xs) (x ∷ []) (All-reverse xs a.1) (a.0, tt))

  -- A list cut at its last entry that passes the test.
  pub record LastOf (xs : List A) (x : A) : Type 0 where
    pub before : List A
    pub after : List A
    pub split : xs ≡ before ++ x ∷ after
    pub passes : p x ≡ true
    pub none_after : All (λ y. p y ≡ false) after

  turned : (xs : List A) (x : A) → CutAt (reverse xs) x → LastOf xs x
  turned xs x c = record {
    before = reverse c.rest;
    after = reverse c.skipped;
    split =
        sym (reverse-reverse xs)
        ∙ (ap reverse c.split
            ∙ (reverse-append c.skipped (x ∷ c.rest)
                ∙ (ap (λ l. l ++ reverse c.skipped) (reverse-cons x c.rest)
                    ∙ append_assoc (reverse c.rest) (x ∷ []) (reverse c.skipped))));
    passes = c.passes;
    none_after = All-reverse c.skipped c.none_skipped;
  }

  pub find-reverse :
      (xs : List A)
      → ((find p (reverse xs) ≡ none) × All (λ y. p y ≡ false) xs)
        ⊎ ((x : A) × (find p (reverse xs) ≡ some x) × LastOf xs x)
  find-reverse xs = elim (find-cases (reverse xs)) [
    | inl (e, a) ↦
        inl (e, subst (All (λ y. p y ≡ false)) (reverse-reverse xs) (All-reverse (reverse xs) a))
    | inr (x, e, c) ↦ inr (x, e, turned xs x c)
  ]

module _ (j : Json) {F : Type 0} (r : ChatCompletionRequest j.Value F) where
  -- `user_prompt` is the text of the last message of the user: there is none if no message is the
  -- user's, and else it is the text of a message of the user after which none is the user's.
  user_prompt-last :
      ((user_prompt j r ≡ none) × All (λ m. is_user j m ≡ false) r.messages)
      ⊎ ((m : Message j.Value) × (user_prompt j r ≡ some (content_text j m.content))
          × LastOf (is_user j) r.messages m)
  unfolding user_prompt
  user_prompt-last = elim (find-reverse (is_user j) r.messages) [
    | inl (e, a) ↦ inl (rw e refl, a)
    | inr (m, e, l) ↦ inr (m, rw e refl, l)
  ]
