-- ===== src/Retry/Counts.antt =====
-- src/proxy/retry.rs: what the retries header counts.
use arbstr.Prelude.{
  ℕ, ◌+◌, ◌%◌, ◌^◌, ◌<◌, ◌≡◌, refl, sym, ◌∙◌, none, some, String, List, [], ◌∷◌, ◌++◌, map, any,
  length, lookup, arith, str_eq, str_eq_iff, if◌then◌else◌, Bool-cases, inl, inr,
}
use mathlib.Core.List.{append_assoc, append-nil}
use arbstr.Retry.Attempts.{AttemptRecord}
use arbstr.Retry.Header.{count, count_all}

-- The count of a name: 0 where there is no entry.
abbrev pub counted : String → List (String × ℕ) → ℕ
counted name m = elim (lookup name m) [ none ↦ 0 | some k ↦ k ]

-- How many of the attempts were on a provider.
abbrev pub attempts_on : String → List AttemptRecord → ℕ
attempts_on name [] = 0
attempts_on name (a ∷ more) = (if str_eq a.provider_name name then 1 else 0) + attempts_on name more

-- The providers of the attempts that are not among those seen, in the order of first appearance.
abbrev pub first_seen : List String → List AttemptRecord → List String
first_seen seen [] = []
first_seen seen (a ∷ more) =
    if any (λ n. str_eq n a.provider_name) seen
    then first_seen seen more
    else a.provider_name ∷ first_seen (seen ++ a.provider_name ∷ []) more

counted-count :
    (name other : String) (m : List (String × ℕ))
    → counted other (count name m)
      ≡ (if str_eq name other then (counted other m + 1) % 2 ^ 32 else counted other m)
unfolding count lookup
counted-count name other [] = ground (arith, str_eq_iff name other)
counted-count name other ((n, k) ∷ m) = ground (
  arith,
  str_eq_iff n name,
  str_eq_iff n other,
  str_eq_iff name other,
  counted-count name other m,
)

count_all-counted :
    (attempts : List AttemptRecord) (name : String) (m : List (String × ℕ))
    → counted name m + length attempts < 2 ^ 32
    → counted name (count_all attempts m) ≡ counted name m + attempts_on name attempts
unfolding count_all
count_all-counted [] name m h = omega arith
count_all-counted (a ∷ more) name m h = elim (Bool-cases (str_eq a.provider_name name)) [
  | inl e ↦
      let c = rw e at (counted-count a.provider_name name m) in
      rw e (
        omega (
          arith,
          c,
          h,
          count_all-counted more name (count a.provider_name m) (omega (arith, c, h)),
        ))
  | inr e ↦
      let c = rw e at (counted-count a.provider_name name m) in
      rw e (
        omega (
          arith,
          c,
          h,
          count_all-counted more name (count a.provider_name m) (omega (arith, c, h)),
        ))
]

count_names :
    (name : String) (m : List (String × ℕ))
    → map (λ e. e.0) (count name m) ≡ (
        if any (λ n. str_eq n name) (map (λ e. e.0) m)
        then map (λ e. e.0) m
        else map (λ e. e.0) m ++ name ∷ [])
unfolding count
count_names name [] = refl
count_names name ((n, k) ∷ m) = ground (arith, count_names name m)

count_all_names :
    (attempts : List AttemptRecord) (m : List (String × ℕ))
    → map (λ e. e.0) (count_all attempts m)
      ≡ map (λ e. e.0) m ++ first_seen (map (λ e. e.0) m) attempts
unfolding count_all
count_all_names [] m = sym (append-nil _)
count_all_names (a ∷ more) m =
    let keys = map (λ (e : String × ℕ). e.0) m in
    elim (Bool-cases (any (λ n. str_eq n a.provider_name) keys)) [
      | inl e ↦
          let named = rw e at (count_names a.provider_name m) in
          rw e (count_all_names more (count a.provider_name m) ∙ rw named refl)
      | inr e ↦
          let named = rw e at (count_names a.provider_name m) in
          rw e (
            count_all_names more (count a.provider_name m)
            ∙ rw named (append_assoc keys (a.provider_name ∷ []) _))
    ]

-- For fewer than 2^32 attempts: the header counts every provider as often as it was attempted, and
-- names the providers once each, in the order of their first attempts.
pub count_all-counts :
    (attempts : List AttemptRecord)
    → length attempts < 2 ^ 32
    → ((name : String) → counted name (count_all attempts []) ≡ attempts_on name attempts)
      × (map (λ e. e.0) (count_all attempts []) ≡ first_seen [] attempts)
unfolding lookup
count_all-counts attempts h = (
  λ name. omega (arith, count_all-counted attempts name [] (omega arith)),
  count_all_names attempts [],
)
