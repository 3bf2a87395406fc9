-- ===== src/Wire/Terms.antt =====
-- lib/ghostwire-store.ts, what it computes from a job: the fee, the settlement at the end, the ids of
-- its events, and the payloads of its webhooks.
pub mod Shares
use ghost_protocol.Prelude.{
  ℕ, ◌+◌, ◌-◌, ◌*◌, ◌/◌, Bool, true, false, ◌&&◌, not, Option, none, some, List, [], ◌∷◌, ◌++◌,
  Text, codes, to_lower_case, is_empty, leb, ltb, sum_by, if◌then◌else◌,
}
use ghost_protocol.Wire.Schema.{
  job_open, job_completed, job_rejected, job_expired, completed, rejected, lapsed, WireJob,
  WireOperatorSpend, WireTerminalDisposition, WirePricing, PayloadBase, WirePayload,
  WireContractState, TerminalSettlement, funded_payload, open_payload, terminal_payload,
  submitted_payload,
}
use ghost_protocol.Wire.Config.{WireSettings, protocol_fee_bps}

unfoldable pub calculate_protocol_fee_amount : WireSettings → ℕ → ℕ
calculate_protocol_fee_amount cfg principal = principal * protocol_fee_bps cfg / 10_000

unfoldable pub sum_operator_spend : List WireOperatorSpend → ℕ
sum_operator_spend rows = sum_by (λ row. row.native_amount_spent) rows

abbrev pub is_terminal : WireContractState → Bool
is_terminal job_completed = true
is_terminal job_rejected = true
is_terminal job_expired = true
is_terminal s = false

abbrev pub is_completed : Option WireTerminalDisposition → Bool
is_completed (some completed) = true
is_completed d = false

unfoldable pub derive_terminal_settlement :
    WireContractState
    → Option WireTerminalDisposition
    → ℕ
    → ℕ
    → ℕ
    → List WireOperatorSpend
    → Option TerminalSettlement
unfolding sum_operator_spend
derive_terminal_settlement contract_state disposition principal fee reserve spends =
    let actual_network_spend = sum_operator_spend spends in
    let unused_network_reserve_refund =
      if leb reserve actual_network_spend then 0 else reserve - actual_network_spend in
    let provider_payout_amount =
      if is_completed disposition then (if ltb fee principal then principal - fee else 0) else 0 in
    if not (is_terminal contract_state)
    then none
    else some (record {
      provider_payout = provider_payout_amount;
      protocol_revenue = if is_completed disposition then fee else 0;
      actual_network_spend = actual_network_spend;
      unused_network_reserve_refund = unused_network_reserve_refund;
    })

unfoldable pub build_wire_pricing_payload : WireSettings → WireJob → WirePricing
build_wire_pricing_payload cfg job = record {
  principal = job.principal_amount;
  protocol_fee = job.protocol_fee_amount;
  bps = protocol_fee_bps cfg;
  network_reserve = job.network_reserve_amount;
  chain_id = job.chain_id;
}

-- `value?.length` truthiness of an optional column: an empty string counts as absent.
abbrev pub truthy : Option Text → Bool
truthy none = false
truthy (some s) = not (is_empty s)

unfoldable pub has_wire_webhook_target : WireJob → Bool
has_wire_webhook_target job = truthy job.webhook_target_url && truthy job.webhook_secret

-- A null column normalizes to null.
abbrev stored_request : WireSettings → Option Text → Option Text
stored_request cfg none = none
stored_request cfg (some payload) = cfg.normalize_request_payload payload

abbrev payload_base : WireSettings → WireJob → PayloadBase
payload_base cfg job = record {
  job_id = job.job_id;
  quote_id = job.quote_id;
  state = job.public_state;
  contract_state = job.contract_state;
  request = stored_request cfg job.request_payload;
  pricing = build_wire_pricing_payload cfg job;
}

unfoldable pub build_open_webhook_payload : WireSettings → WireJob → WirePayload
unfolding build_wire_pricing_payload
build_open_webhook_payload cfg job = open_payload (payload_base cfg job) job.created_at

unfoldable pub build_funded_webhook_payload : WireSettings → WireJob → WirePayload
unfolding build_wire_pricing_payload
build_funded_webhook_payload cfg job =
    funded_payload (payload_base cfg job) job.contract_address job.contract_job_id
      job.create_tx_hash job.fund_tx_hash job.updated_at

unfoldable pub build_submitted_webhook_payload : WireSettings → WireJob → WirePayload
unfolding build_wire_pricing_payload
build_submitted_webhook_payload cfg job =
    submitted_payload (payload_base cfg job) job.contract_address job.contract_job_id
      job.fund_tx_hash job.updated_at

unfoldable pub build_terminal_webhook_payload :
    WireSettings → WireJob → List WireOperatorSpend → WirePayload
unfolding build_wire_pricing_payload derive_terminal_settlement
build_terminal_webhook_payload cfg job spends =
    terminal_payload (payload_base cfg job) job.contract_address job.contract_job_id
      job.terminal_disposition job.terminal_tx_hash job.updated_at
      (derive_terminal_settlement job.contract_state job.terminal_disposition job.principal_amount
        job.protocol_fee_amount job.network_reserve_amount spends)

abbrev pub disposition_text : WireTerminalDisposition → Text
disposition_text completed = codes "COMPLETED"
disposition_text rejected = codes "REJECTED"
disposition_text lapsed = codes "EXPIRED"

-- `txHash ? `${id}:${txHash.toLowerCase()}` : id`.
abbrev with_tx : Text → Option Text → Text
with_tx id none = id
with_tx id (some tx) = if is_empty tx then id else id ++ codes ":" ++ to_lower_case tx

unfoldable pub build_wire_open_event_id : Text → Text
build_wire_open_event_id job_id = codes "wire_job_open:" ++ job_id

unfoldable pub build_wire_open_webhook_event_id : Text → Text
build_wire_open_webhook_event_id job_id = codes "wire_job_open_webhook:" ++ job_id

unfoldable pub build_wire_funded_event_id : Text → Text → Text
build_wire_funded_event_id job_id tx =
    codes "wire_job_funded:" ++ job_id ++ codes ":" ++ to_lower_case tx

unfoldable pub build_wire_funded_webhook_event_id : Text → Text → Text
build_wire_funded_webhook_event_id job_id tx =
    codes "wire_job_funded_webhook:" ++ job_id ++ codes ":" ++ to_lower_case tx

unfoldable pub build_wire_submitted_event_id : Text → Option Text → Text
build_wire_submitted_event_id job_id tx = with_tx (codes "wire_job_submitted:" ++ job_id) tx

unfoldable pub build_wire_submitted_webhook_event_id : Text → Option Text → Text
build_wire_submitted_webhook_event_id job_id tx =
    with_tx (codes "wire_job_submitted_webhook:" ++ job_id) tx

unfoldable pub build_wire_terminal_event_id : Text → WireTerminalDisposition → Option Text → Text
build_wire_terminal_event_id job_id state tx =
    with_tx (codes "wire_job_terminal:" ++ job_id ++ codes ":" ++ disposition_text state) tx

unfoldable pub build_wire_terminal_webhook_event_id :
    Text → WireTerminalDisposition → Option Text → Text
build_wire_terminal_webhook_event_id job_id state tx =
    with_tx (codes "wire_job_terminal_webhook:" ++ job_id ++ codes ":" ++ disposition_text state) tx
