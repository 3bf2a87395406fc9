-- ===== src/Settlement/Amounts.antt =====
-- lib/merchant-settlement.ts: the split of a credit amount into fee and net wei, and the ids that
-- settlements are booked under. A fee rate is a number of basis points, a credit price is in wei.
pub mod Split
use ghost_protocol.Prelude.{
  ℕ, ◌-◌, ◌*◌, ◌/◌, Text, codes, trim, to_lower_case, is_empty, ltb, if◌then◌else◌, ◌++◌, Option,
  none, some, or_else,
}
use ghost_protocol.Prelude.Int.{ℤ, pos_part, is_positive}
use ghost_protocol.Store.{Result, ok, err, failure}
use ghost_protocol.Env.{Env}

abbrev pub bps_denominator : ℕ
bps_denominator = 10_000

abbrev pub ghost_credit_price_wei : ℕ
ghost_credit_price_wei = 10_000_000_000_000

abbrev pub ghost_protocol_fee_bps : ℕ
ghost_protocol_fee_bps = 250

pub record SettlementAmountBreakdown : Type 0 where
  pub gross_credits : ℕ
  pub credit_price_wei : ℕ
  pub fee_bps : ℕ
  pub gross_wei : ℕ
  pub fee_wei : ℕ
  pub net_wei : ℕ

unfoldable pub breakdown : ℕ → ℕ → ℕ → SettlementAmountBreakdown
breakdown gross_credits credit_price_wei fee_bps =
    let gross_wei = gross_credits * credit_price_wei in
    let fee_wei = (gross_wei * fee_bps) / bps_denominator in
    record {
      gross_credits = gross_credits;
      credit_price_wei = credit_price_wei;
      fee_bps = fee_bps;
      gross_wei = gross_wei;
      fee_wei = fee_wei;
      net_wei = gross_wei - fee_wei;
    }

-- `feeBps` and `creditPriceWei` may be left out.
unfoldable pub calculate_settlement_amounts :
    ℤ → Option ℕ → Option ℤ → Result SettlementAmountBreakdown
unfolding breakdown
calculate_settlement_amounts gross_credits fee_bps credit_price_wei =
    let price = or_else credit_price_wei (ℤ.pos ghost_credit_price_wei) in
    let bps = or_else fee_bps ghost_protocol_fee_bps in
    if is_positive gross_credits
    then if is_positive price
      then if ltb bps_denominator bps
        then err (failure "feeBps must be an integer between 0 and 10000.")
        else ok (breakdown (pos_part gross_credits) (pos_part price) bps)
      else err (failure "creditPriceWei must be greater than zero.")
    else err (failure "grossCredits must be greater than zero.")

build_settlement_id : Env → Text → Text → Text
build_settlement_id env source_type source_key =
    env.keccak256_of_string (codes "ghost:settlement:v1:" ++ source_type ++ codes ":" ++ source_key)

unfoldable pub normalize_wallet_address : Env → Text → Result Text
normalize_wallet_address env address = elim (env.get_address address) [
  | none ↦ err (failure "Invalid address")
  | some checksummed ↦ ok (to_lower_case checksummed)
]

unfoldable pub normalize_request_id : Text → Result Text
normalize_request_id request_id =
    if is_empty (trim request_id)
    then err (failure "requestId is required to derive a gate settlement id.")
    else ok (trim request_id)

unfoldable pub normalize_ticket_id : Text → Result Text
normalize_ticket_id ticket_id =
    if is_empty (to_lower_case (trim ticket_id))
    then err (failure "ticketId is required to derive a fulfillment settlement id.")
    else ok (to_lower_case (trim ticket_id))

unfoldable pub normalize_rollup_id : Text → Result Text
normalize_rollup_id rollup_id =
    if is_empty (trim rollup_id)
    then err (failure "rollupId is required to derive a rollup settlement id.")
    else ok (trim rollup_id)

infixl 5 ◌>>=◌
abbrev ◌>>=◌ : {A B : Type 0} → Result A → (A → Result B) → Result B
ok a >>= f = f a
err e >>= f = err e

unfoldable pub build_gate_settlement_id : Env → Text → Text → Result Text
unfolding build_settlement_id normalize_wallet_address normalize_request_id
build_gate_settlement_id env wallet_address request_id = do
  wallet ← normalize_wallet_address env wallet_address
  request ← normalize_request_id request_id
  ok (
      build_settlement_id env (codes "gate_debit")
        (codes "gate:" ++ wallet ++ codes ":" ++ request))

unfoldable pub build_fulfillment_capture_settlement_id : Env → Text → Result Text
unfolding build_settlement_id normalize_ticket_id
build_fulfillment_capture_settlement_id env ticket_id = do
  ticket ← normalize_ticket_id ticket_id
  ok (
      build_settlement_id env (codes "fulfillment_capture")
        (codes "fulfillment_capture:" ++ ticket))

unfoldable pub build_settlement_rollup_id : Env → Text → Result Text
unfolding build_settlement_id normalize_rollup_id
build_settlement_rollup_id env rollup_id = do
  rollup ← normalize_rollup_id rollup_id
  ok (build_settlement_id env (codes "merchant_rollup") (codes "ghost-rollup-v1:" ++ rollup))
