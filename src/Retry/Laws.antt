-- ===== src/Retry/Laws.antt =====
-- src/proxy/retry.rs: `retry_with_fallback` against a walk over a fixed schedule of requests.
use arbstr.Prelude.{ℕ, zero, suc, ◌≡◌, Bool, false, List, [], ◌∷◌, ◌++◌, if◌then◌else◌, arith}
use arbstr.Retry.Attempts.{
  AttemptRecord, CandidateInfo, Outcome, ok, err, Action, sleeps, sends, ended, backoff,
  is_retryable, retry_with_fallback, attempt_of,
}

-- The second candidate, if there is one.
abbrev pub fallback_of : List CandidateInfo → List CandidateInfo
fallback_of [] = []
fallback_of (d ∷ _) = d ∷ []

-- What a trace does up to its `n`-th request.
abbrev pub upto : ℕ → List Action → List Action
upto n [] = []
upto zero (_ ∷ _) = []
upto (suc n) (sleeps ms ∷ acts) = sleeps ms ∷ upto (suc n) acts
upto (suc n) (sends c ∷ acts) = sends c ∷ upto n acts

-- All that may happen in time.
abbrev pub full_trace : CandidateInfo → List CandidateInfo → List Action
full_trace c [] = sends c ∷ sleeps 1000 ∷ sends c ∷ sleeps 2000 ∷ sends c ∷ []
full_trace c (d ∷ _) = sends c ∷ sleeps 1000 ∷ sends c ∷ sleeps 2000 ∷ sends c ∷ sends d ∷ []

module _ {T E : Type 0} (status_code : E → ℕ) (send : ℕ → CandidateInfo → Outcome T E) where
  -- What a walk ends with: the last answer, the failures recorded, and the number of requests.
  abbrev pub Walk : Type 0
  Walk = Outcome T E × List AttemptRecord × ℕ

  abbrev pub recorded : CandidateInfo → List AttemptRecord → Outcome T E → List AttemptRecord
  recorded c attempts (ok _) = attempts
  recorded c attempts (err e) = attempts ++ attempt_of status_code send c e ∷ []

  -- Whether the walk goes on after an answer.
  abbrev pub goes_on : Outcome T E → Bool
  goes_on (ok _) = false
  goes_on (err e) = is_retryable (status_code e)

  -- Request the scheduled candidates in order, from the `i`-th request, until an answer is a
  -- success or an error that is not retryable, or the schedule ends.
  abbrev pub walk : ℕ → CandidateInfo → List CandidateInfo → List AttemptRecord → Walk
  walk i c [] attempts = (send i c, recorded c attempts (send i c), suc i)
  walk i c (d ∷ cs) attempts =
      let rest = walk (suc i) d cs (recorded c attempts (send i c)) in
      if goes_on (send i c) then rest else (send i c, recorded c attempts (send i c), suc i)

  -- For any candidates but none, and any answers, the function ends without a panic: its result is
  -- the answer that ends the walk over the schedule (primary three times, then the second
  -- candidate), its attempts are the failures on the walk, appended to those before, and in time
  -- it does what the full trace does up to the last request of the walk.
  pub retry_with_fallback-walk :
      (c : CandidateInfo) (others : List CandidateInfo) (attempts : List AttemptRecord)
      → let v = walk 0 c (c ∷ c ∷ fallback_of others) attempts in
        retry_with_fallback status_code send (c ∷ others) attempts
        ≡ ended v.0 v.1 (upto v.2 (full_trace c others))
  unfolding retry_with_fallback backoff
  retry_with_fallback-walk c [] attempts = ground arith
  retry_with_fallback-walk c (d ∷ others) attempts = ground arith
