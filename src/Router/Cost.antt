-- ===== src/Router/Cost.antt =====
-- src/router/selector.rs: `actual_cost_sats`, over an interface for `f64`.
use arbstr.Prelude.{ℕ}

-- The operations of `f64` that the program uses: `as f64`, the arithmetic, the literals 1000.0 as
-- conversions of numbers, and the saturating `as u64`.
pub record F64 : Type 1 where
  pub Carrier : Type 0
  pub from_u64 : ℕ → Carrier
  pub add : Carrier → Carrier → Carrier
  pub mul : Carrier → Carrier → Carrier
  pub div : Carrier → Carrier → Carrier
  pub to_u64 : Carrier → ℕ

module _ (f : F64) where
  open f use {Carrier, from_u64, add, mul, div, to_u64}

  unfoldable pub actual_cost_sats : ℕ → ℕ → ℕ → ℕ → ℕ → Carrier
  actual_cost_sats input_tokens output_tokens input_rate output_rate base_fee =
      let input_cost = mul (from_u64 input_tokens) (from_u64 input_rate) in
      let output_cost = mul (from_u64 output_tokens) (from_u64 output_rate) in
      add (div (add input_cost output_cost) (from_u64 1000)) (from_u64 base_fee)

  -- `(c * 1000.0) as u64`.
  unfoldable pub to_msats : Carrier → ℕ
  to_msats c = to_u64 (mul c (from_u64 1000))
