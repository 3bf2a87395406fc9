-- ===== src/Settlement/Amounts/Split.antt =====
-- lib/merchant-settlement.ts, calculateSettlementAmounts: the parts of its answer.
use ghost_protocol.Prelude.{ℕ, ◌+◌, ◌*◌, ◌/◌, ◌≤◌, ◌<◌, ◌≡◌, refl, Option, or_else, arith}
use ghost_protocol.Prelude.Int.{ℤ, pos, negsuc, pos_part}
use ghost_protocol.Store.{ok}
use ghost_protocol.Settlement.Amounts.{
  ghost_credit_price_wei, ghost_protocol_fee_bps, SettlementAmountBreakdown, breakdown,
  calculate_settlement_amounts,
}

-- A fee of `bps` basis points of `gross`, rounded down, and what is left.
pub record IsSplit (b : SettlementAmountBreakdown) : Type 0 where
  pub gross : b.gross_wei ≡ b.gross_credits * b.credit_price_wei
  pub rate : b.fee_bps ≤ 10_000
  pub whole : b.fee_wei + b.net_wei ≡ b.gross_wei
  pub not_over : b.fee_wei * 10_000 ≤ b.gross_wei * b.fee_bps
  pub not_under : b.gross_wei * b.fee_bps < b.fee_wei * 10_000 + 10_000

fee-le : (gross bps : ℕ) → bps ≤ 10_000 → (gross * bps) / 10_000 ≤ gross
fee-le gross bps rate = let over : gross * bps ≤ gross * 10_000 = grind arith in ground arith

breakdown-IsSplit : (credits price bps : ℕ) → bps ≤ 10_000 → IsSplit (breakdown credits price bps)
unfolding breakdown
breakdown-IsSplit credits price bps rate =
    let gross = credits * price in
    record {
      gross = refl;
      rate = rate;
      whole = ground (arith, fee-le gross bps rate);
      not_over = ground arith;
      not_under = ground arith;
    }

-- If calculateSettlementAmounts answers, the rate is at most 10,000 basis points, the gross amount is the
-- credits times the price, fee and net amount to it exactly, and the fee is the rate's share rounded down.
pub calculate_settlement_amounts-IsSplit :
    (gross : ℤ) (fee_bps : Option ℕ) (price : Option ℤ) {b : SettlementAmountBreakdown}
    → calculate_settlement_amounts gross fee_bps price ≡ ok b
    → IsSplit b
      × (pos b.gross_credits ≡ gross)
      × (b.fee_bps ≡ or_else fee_bps ghost_protocol_fee_bps)
      × (pos b.credit_price_wei ≡ or_else price (pos ghost_credit_price_wei))
unfolding calculate_settlement_amounts breakdown
calculate_settlement_amounts-IsSplit (negsuc n) fee_bps price e = absurd (ground arith)
calculate_settlement_amounts-IsSplit (pos n) fee_bps price {b} e =
    let bps = or_else fee_bps ghost_protocol_fee_bps in
    let rate : bps ≤ 10_000 = ground arith in
    let made : breakdown n (pos_part (or_else price (pos ghost_credit_price_wei))) bps ≡ b =
      ground arith in
    (
      rw made at
          (breakdown-IsSplit n (pos_part (or_else price (pos ghost_credit_price_wei))) bps rate),
      ground arith,
      ground arith,
      ground arith,
    )
