-- ===== src/Wire/Terms/Shares.antt =====
-- How a job's principal and its network reserve are shared out when it ends.
use ghost_protocol.Prelude.{
  ℕ, ◌+◌, ◌*◌, ◌≤◌, ◌≡◌, arith, Option, some, List, min, if◌then◌else◌, Bool-cases, inl, inr,
}
use ghost_protocol.Wire.Schema.{
  WireContractState, WireTerminalDisposition, WireOperatorSpend, TerminalSettlement,
}
use ghost_protocol.Wire.Config.{WireSettings, protocol_fee_bps, protocol_fee_bps-bound}
use ghost_protocol.Wire.Terms.{
  calculate_protocol_fee_amount, derive_terminal_settlement, is_completed, sum_operator_spend,
}

-- Ten fees are at most the principal, whatever the environment says.
pub calculate_protocol_fee_amount-bound :
    (cfg : WireSettings) (principal : ℕ)
    → calculate_protocol_fee_amount cfg principal * 10 ≤ principal
unfolding calculate_protocol_fee_amount
calculate_protocol_fee_amount-bound cfg principal =
    let rate : protocol_fee_bps cfg ≤ 1000 = protocol_fee_bps-bound cfg in
    let over : principal * protocol_fee_bps cfg ≤ principal * 1000 = grind arith in ground arith

pub record IsShared (disposition : Option WireTerminalDisposition) (principal reserve : ℕ)
    (spends : List WireOperatorSpend) (t : TerminalSettlement) : Type 0 where
  pub principal_paid :
      t.provider_payout + t.protocol_revenue ≡ (if is_completed disposition then principal else 0)
  pub revenue_bound : t.protocol_revenue * 10 ≤ principal
  pub spent : t.actual_network_spend ≡ sum_operator_spend spends
  pub reserve_returned :
      t.unused_network_reserve_refund + min t.actual_network_spend reserve ≡ reserve

-- If a job that carries the fee of calculateProtocolFeeAmount has a terminal settlement, the provider's payout
-- and the protocol's revenue amount to exactly the principal if the job is completed and to nothing
-- otherwise, the revenue is at most a tenth of the principal whatever the environment sets, and the refund
-- and the spend that the reserve covers amount to exactly the reserve.
pub derive_terminal_settlement-IsShared :
    (cfg : WireSettings) (state : WireContractState) (disposition : Option WireTerminalDisposition)
    (principal reserve : ℕ) (spends : List WireOperatorSpend) {t : TerminalSettlement}
    → derive_terminal_settlement state disposition principal
        (calculate_protocol_fee_amount cfg principal)
        reserve
        spends
      ≡ some t
    → IsShared disposition principal reserve spends t
unfolding derive_terminal_settlement
derive_terminal_settlement-IsShared cfg state disposition principal reserve spends {t} e =
    let fee = calculate_protocol_fee_amount cfg principal in
    let small = calculate_protocol_fee_amount-bound cfg principal in
    elim (Bool-cases (is_completed disposition)) [
      | inl done ↦ record {
        principal_paid = ground arith;
        revenue_bound = ground arith;
        spent = ground arith;
        reserve_returned = ground arith;
      }
      | inr undone ↦ record {
        principal_paid = ground arith;
        revenue_bound = ground arith;
        spent = ground arith;
        reserve_returned = ground arith;
      }
    ]
