-- ===== src/Retry/Attempts.antt =====
-- src/proxy/retry.rs: `retry_with_fallback`. Its `send_request` is a third party's answer to each
-- request: a function from the number of requests made so far and the candidate to a result. The
-- shared vector of attempts is state that is passed on; sleeps and requests are kept in a trace.
use arbstr.Prelude.{
  ℕ, zero, suc, ◌==◌, ◌||◌, Bool, String, List, [], ◌∷◌, ◌++◌, Option, none, some, if◌then◌else◌,
}

pub record AttemptRecord : Type 0 where
  pub provider_name : String
  pub status_code : ℕ

pub record CandidateInfo : Type 0 where
  pub name : String

-- `MAX_RETRIES`.
abbrev pub max_retries : ℕ
max_retries = 2

-- `BACKOFF_DURATIONS`, in milliseconds; an index out of range is a panic.
unfoldable pub backoff : ℕ → Option ℕ
backoff zero = some 1000
backoff (suc zero) = some 2000
backoff (suc (suc zero)) = some 4000
backoff (suc (suc (suc _))) = none

-- `is_retryable`.
unfoldable pub is_retryable : ℕ → Bool
is_retryable s = s == 500 || (s == 502 || (s == 503 || s == 504))

pub data Outcome {ℓ κ} (T : Type ℓ) (E : Type κ) : Type (ℓ ⊔ κ) where
  ok : T → Outcome T E
  err : E → Outcome T E

-- What the function does in time: it sleeps, or sends a request to a candidate.
pub data Action : Type 0 where
  sleeps : ℕ → Action
  sends : CandidateInfo → Action

-- A run that ended: its result, the attempts that it recorded, and its actions. `panicked` is an
-- index out of range or the `expect` on `last_error`.
pub data Run (T E : Type 0) : Type 0 where
  ended : Outcome T E → List AttemptRecord → List Action → Run T E
  panicked : Run T E

module _ {T E : Type 0} (status_code : E → ℕ) (send : ℕ → CandidateInfo → Outcome T E) where
  abbrev pub attempt_of : CandidateInfo → E → AttemptRecord
  attempt_of c e = record { provider_name = c.name; status_code = status_code e }

  -- The fallback's answer, recorded if it fails.
  unfoldable pub conclude_fallback :
      CandidateInfo → List AttemptRecord → List Action → Outcome T E → Run T E
  conclude_fallback c attempts done (ok value) = ended (ok value) attempts (done ++ sends c ∷ [])
  conclude_fallback c attempts done (err e) =
      ended (err e) (attempts ++ attempt_of c e ∷ []) (done ++ sends c ∷ [])

  -- After the loop: one fallback attempt if there is a second candidate, else the last error.
  unfoldable pub after_primary :
      ℕ → List CandidateInfo → Option E → List AttemptRecord → List Action → Run T E
  unfolding conclude_fallback
  after_primary sent (c ∷ _) last attempts done = conclude_fallback c attempts done (send sent c)
  after_primary sent [] (some e) attempts done = ended (err e) attempts done
  after_primary sent [] none attempts done = panicked

  -- The sleep before an attempt: none before the first.
  abbrev pub rest_before : ℕ → Option (List Action)
  rest_before zero = some []
  rest_before (suc k) = elim (backoff k) [ none ↦ none | some ms ↦ some (sleeps ms ∷ []) ]

  -- The `for attempt in 0..=MAX_RETRIES` loop; `left` is the number of attempts still to make.
  after_answer :
      (ℕ → Option E → List AttemptRecord → List Action → Run T E)
      → CandidateInfo
      → List AttemptRecord
      → List Action
      → Outcome T E
      → ℕ
      → Run T E
  after_answer next c attempts done (ok value) attempt = ended (ok value) attempts done
  after_answer next c attempts done (err e) attempt =
      if is_retryable (status_code e)
      then next (suc attempt) (some e) (attempts ++ attempt_of c e ∷ []) done
      else ended (err e) (attempts ++ attempt_of c e ∷ []) done

  unfoldable pub try_primary :
      ℕ
      → ℕ
      → CandidateInfo
      → List CandidateInfo
      → Option E
      → List AttemptRecord
      → List Action
      → Run T E
  unfolding after_answer after_primary
  try_primary zero attempt c others last attempts done =
      after_primary attempt others last attempts done
  try_primary (suc left) attempt c others last attempts done = elim (rest_before attempt) [
    | none ↦ panicked
    | some rest ↦
        after_answer (λ n l records acts. try_primary left n c others l records acts) c attempts
          (done ++ (rest ++ sends c ∷ [])) (send attempt c) attempt
  ]

  -- `candidates[0]` panics on an empty slice.
  unfoldable pub retry_with_fallback : List CandidateInfo → List AttemptRecord → Run T E
  unfolding try_primary
  retry_with_fallback [] attempts = panicked
  retry_with_fallback (c ∷ others) attempts =
      try_primary (suc max_retries) 0 c others none attempts []
