-- ===== src/Vault/Reserve.antt =====
-- src/proxy/vault.rs: the estimate that is reserved, in millisatoshis, as `u64` arithmetic.
use arbstr.Prelude.{ℕ, ◌+◌, ◌*◌, ◌/◌, ◌^◌, ◌≤◌, ◌<◌, ◌≡◌, true, some, String, arith, All, All-mono}
use arbstr.Router.Selector.{Router, u64, serves, frontier_rates}
use arbstr.Router.Rates.{frontier_rates-Within}

-- `estimate_reserve_msats`; `*` and `+` wrap at 64 bits.
unfoldable pub estimate_reserve_msats : ℕ → ℕ → ℕ → ℕ → ℕ → ℕ
estimate_reserve_msats input_tokens output_tokens input_rate output_rate base_fee =
    let input_cost_msats = u64 (u64 (input_tokens * input_rate) * 1000) / 1000 in
    let output_cost_msats = u64 (u64 (output_tokens * output_rate) * 1000) / 1000 in
    let base_fee_msats = u64 (base_fee * 1000) in
    u64 (u64 (input_cost_msats + output_cost_msats) + base_fee_msats)

-- The cost of a request in millisatoshis, without rounding or wrapping.
abbrev pub exact_msats : ℕ → ℕ → ℕ → ℕ → ℕ → ℕ
exact_msats input_tokens output_tokens input_rate output_rate base_fee =
    input_tokens * input_rate + output_tokens * output_rate + base_fee * 1000

-- Where nothing overflows, the estimate is the exact cost of the estimated tokens.
pub estimate-exact :
    (ti to ri ro b : ℕ)
    → ti * ri * 1000 + to * ro * 1000 + b * 1000 < 2 ^ 64
    → estimate_reserve_msats ti to ri ro b ≡ exact_msats ti to ri ro b
unfolding estimate_reserve_msats
estimate-exact ti to ri ro b h = omega arith

mul_mono : (a b c d : ℕ) → a ≤ b → c ≤ d → a * c ≤ b * d
mul_mono a b c d h k = grind arith

-- If the reserve is estimated at the frontier rates of the model, with nothing overflowing, then it
-- covers the exact cost of the request at any configured provider that serves the model, so also
-- after an escalation, as long as the tokens used are at most those estimated.
pub reserve-covers :
    (r : Router) (model : String) (rates : ℕ × ℕ × ℕ) (est_in est_out used_in used_out : ℕ)
    → frontier_rates r model ≡ some rates
    → est_in * rates.0 * 1000 + est_out * rates.1 * 1000 + rates.2 * 1000 < 2 ^ 64
    → used_in ≤ est_in
    → used_out ≤ est_out
    → All
        (λ p.
          serves model p ≡ true
          → exact_msats used_in used_out p.input_rate p.output_rate p.base_fee
            ≤ estimate_reserve_msats est_in est_out rates.0 rates.1 rates.2)
        r.providers
reserve-covers r model rates est_in est_out used_in used_out found fits h k =
    All-mono _ _ r.providers
      (λ p within serving.
        let (i, o, b) = within serving in
        omega (
          arith,
          estimate-exact est_in est_out rates.0 rates.1 rates.2 fits,
          mul_mono used_in est_in p.input_rate rates.0 h i,
          mul_mono used_out est_out p.output_rate rates.1 k o,
        ))
      (frontier_rates-Within r model rates found)
