-- ===== src/Storage/Logging.antt =====
-- src/storage/logging.rs: the rows of the request log. A `f64` column has any type.
use arbstr.Prelude.{ℕ, Bool, Option, String}

pub record RequestLog (C : Type 0) : Type 0 where
  pub correlation_id : String
  pub timestamp : String
  pub model : String
  pub provider : Option String
  pub policy : Option String
  pub streaming : Bool
  pub input_tokens : Option ℕ
  pub output_tokens : Option ℕ
  pub cost_sats : Option C
  pub provider_cost_sats : Option C
  pub latency_ms : ℕ
  pub success : Bool
  pub error_status : Option ℕ
  pub error_message : Option String
  pub complexity_score : Option C
  pub tier : Option String
