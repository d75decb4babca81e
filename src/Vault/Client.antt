-- ===== src/Vault/Client.antt =====
-- src/proxy/vault.rs: `VaultClient`. The HTTP client and the vault behind it are an argument: the
-- answer to the n-th request of a call.
use arbstr.Prelude.{
  ℕ, zero, suc, ◌*◌, ◌^◌, ◌<>◌, ◌==◌, ◌&&◌, Bool, Option, none, some, String, List, [], ◌∷◌, ◌++◌,
  leb, if◌then◌else◌,
}

-- `MAX_RETRIES` and `RETRY_BASE_MS`.
abbrev pub max_retries : ℕ
max_retries = 3

abbrev pub retry_base_ms : ℕ
retry_base_ms = 100

pub record Reservation : Type 0 where
  pub id : String
  pub reserved_msats : ℕ

pub data VaultError : Type 0 where
  insufficient_balance : VaultError
  policy_denied : String → VaultError
  rate_limited : VaultError
  unavailable : String → VaultError
  other : String → VaultError

-- `VaultError::status_code`.
unfoldable pub status_code : VaultError → ℕ
status_code insufficient_balance = 402
status_code (policy_denied _) = 403
status_code rate_limited = 429
status_code (unavailable _) = 503
status_code (other _) = 500

-- A body read as JSON, or the text of the error.
pub data Parsed (V : Type 0) : Type 0 where
  parsed : V → Parsed V
  unparsed : String → Parsed V

-- What a request comes back with: a status, its body as JSON (or the text of a parse error) and as
-- text; or a transport error, whether it is a timeout or a failed connection, and its text.
pub data Answer (V : Type 0) : Type 0 where
  responded : ℕ → Parsed V → String → Answer V
  transport : Bool → String → Answer V

pub data VaultResult {ℓ} (A : Type ℓ) : Type ℓ where
  ok : A → VaultResult A
  err : VaultError → VaultResult A

abbrev pub in_range : ℕ → ℕ → ℕ → Bool
in_range lo hi s = leb lo s && leb s hi

-- The error of a transport failure.
unfoldable pub transport_error : Bool → String → VaultError
transport_error unreachable e =
    if unreachable then unavailable ("Connection failed: " <> e) else other e

-- One attempt of `call_with_retry`: it ends the call, or leaves an error and the loop goes on.
pub data Attempt (V : Type 0) : Type 0 where
  returns : VaultResult V → Attempt V
  retries : VaultError → Attempt V

module _ (show : ℕ → String) where
  http_error : ℕ → String → String
  http_error status body = "HTTP " <> show status <> ": " <> body

  -- The 2xx arm of `reserve`, on the `reservation_id` of the body.
  reserved : ℕ → Option String → VaultResult Reservation
  reserved amount none = err (other "Missing reservation_id in response")
  reserved amount (some id) = ok (record { id = id; reserved_msats = amount })

  parsed_reservation : {V : Type 0} → (V → Option String) → ℕ → Parsed V → VaultResult Reservation
  unfolding reserved
  parsed_reservation id_of amount (parsed v) = reserved amount (id_of v)
  parsed_reservation id_of amount (unparsed e) = err (other ("Invalid reserve response: " <> e))

  -- `reserve`: one request. `id_of` is `resp.get("reservation_id").as_str()`.
  unfoldable pub reserve :
      {V : Type 0} → (V → Option String) → Answer V → ℕ → VaultResult Reservation
  unfolding parsed_reservation transport_error http_error
  reserve id_of (transport unreachable e) amount = err (transport_error unreachable e)
  reserve id_of (responded status body text) amount =
      if in_range 200 299 status
      then parsed_reservation id_of amount body
      else if status == 402
      then err insufficient_balance
      else if status == 403
      then err (policy_denied text)
      else if status == 429
      then err rate_limited
      else if in_range 500 599 status
      then err (unavailable (http_error status text))
      else err (other (http_error status text))

  body_or_error : {V : Type 0} → Parsed V → VaultResult V
  body_or_error (parsed v) = ok v
  body_or_error (unparsed e) = err (other ("Invalid response body: " <> e))

  unfoldable pub attempt : {V : Type 0} → Answer V → Attempt V
  unfolding body_or_error transport_error http_error
  attempt (transport unreachable e) = retries (transport_error unreachable e)
  attempt (responded status body text) =
      if in_range 200 299 status
      then returns (body_or_error body)
      else if in_range 500 599 status
      then retries (unavailable (http_error status text))
      else returns (err (other (http_error status text)))

  -- The delay before an attempt, `RETRY_BASE_MS * 2u64.pow(attempt)`; none before the first.
  abbrev pub delay_before : ℕ → List ℕ
  delay_before zero = []
  delay_before (suc k) = retry_base_ms * 2 ^ suc k ∷ []

  unfoldable pub after_attempt :
      {V : Type 0}
      → (VaultError → List ℕ → VaultResult V × List ℕ × ℕ)
      → ℕ
      → List ℕ
      → Attempt V
      → VaultResult V × List ℕ × ℕ
  after_attempt next sent delays (returns r) = (r, delays, suc sent)
  after_attempt next sent delays (retries e) = next e delays

  -- The loop over the attempts: its result, its delays, and the number of requests sent.
  unfoldable pub attempts :
      {V : Type 0} → (ℕ → Answer V) → ℕ → ℕ → VaultError → List ℕ → VaultResult V × List ℕ × ℕ
  unfolding after_attempt
  attempts post zero n last delays = (err last, delays, n)
  attempts post (suc left) n last delays =
      after_attempt (attempts post left (suc n)) n (delays ++ delay_before n) (attempt (post n))

  unfoldable pub call_with_retry : {V : Type 0} → (ℕ → Answer V) → VaultResult V × List ℕ × ℕ
  unfolding attempts
  call_with_retry post = attempts post max_retries 0 (other "no attempts made") []
