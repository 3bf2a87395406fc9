-- ===== src/Wire/Prepare.antt =====
-- lib/ghostwire-store.ts, prepareWireJobFromQuote: a quote is checked, the client's balance is read from the
-- chain, and a transaction checks the quote again, creates the job and consumes the quote. The wallet's
-- transaction requests are built by the client's library and left out.
pub mod Once
use ghost_protocol.Prelude.{
  ℕ, ◌+◌, ◌*◌, Bool, true, false, not, Option, none, some, Text, find, if◌then◌else◌, or_else,
  codes,
}
use ghost_protocol.Store.{
  Result, ok, err, ◌>>=◌, ◌>>◌, return, guard, lift, on_ok, transaction,
  wire_job_insufficient_balance,
}
use ghost_protocol.Wire.Schema.{
  WireDb, WireQuote, WireJob, WireJobWorkflow, job_open, pending, WireContractState,
  WireJobTransition, WirePayload, unvalidated, WireWebhookOutbox, undelivered,
}
use ghost_protocol.Wire.Config.{WireSettings, resolve_contract_budget_amount}
use ghost_protocol.Wire.Terms.{
  has_wire_webhook_target, build_wire_open_webhook_event_id, build_wire_open_event_id,
  build_open_webhook_payload,
}
use ghost_protocol.Wire.Tables.{
  W, has_quote_id, create_outbox, create_job, update_quote, create_transition,
}
use ghost_protocol.Wire.Quotes.{PrepareInput, check_wire_quote}

-- The random ids and the time of one call.
pub record Fresh : Type 0 where
  pub row_id : Text
  pub job_id : Text
  pub now : ℕ

-- `a ?? b ?? null`.
abbrev pub or_option : Option Text → Option Text → Option Text
or_option none b = b
or_option (some a) b = some a

abbrev pub job_of : WireSettings → Fresh → PrepareInput → WireQuote → WireJob
job_of cfg fresh input quote = record {
  id = fresh.row_id;
  job_id = fresh.job_id;
  quote_id = quote.quote_id;
  chain_id = quote.chain_id;
  job_expires_at = fresh.now + cfg.job_expiry_seconds * 1000;
  contract_address = none;
  contract_job_id = none;
  contract_budget_amount = resolve_contract_budget_amount quote.principal_amount;
  client_address = input.client_address;
  provider_address = input.provider_address;
  provider_agent_id = or_option quote.provider_agent_id input.provider_agent_id;
  provider_service_slug = or_option quote.provider_service_slug input.provider_service_slug;
  evaluator_address = input.evaluator_address;
  principal_amount = quote.principal_amount;
  protocol_fee_amount = quote.protocol_fee_amount;
  network_reserve_amount = quote.network_reserve_amount;
  spec_hash = input.spec_hash;
  metadata_uri = input.metadata_uri;
  request_payload = input.request_payload;
  contract_state = job_open;
  public_state = job_open;
  terminal_disposition = none;
  create_tx_hash = none;
  create_tx_sender = none;
  fund_tx_hash = none;
  fund_tx_sender = none;
  terminal_tx_hash = none;
  artifacts_recorded_at = none;
  artifact_validation_state = unvalidated;
  artifact_validation_error = none;
  webhook_target_url = input.webhook_target_url;
  webhook_secret = input.webhook_secret;
  created_at = fresh.now;
  updated_at = fresh.now;
}

abbrev pub workflow_of : Text → WireJobWorkflow
workflow_of id = record {
  wire_job_id = id;
  artifact_status = pending;
  create_status = pending;
  fund_status = pending;
  confirmation_status = pending;
  reconcile_status = pending;
  artifact_checked_at = none;
  artifact_last_checked_block = none;
  last_error = none;
  last_attempt_at = none;
  retry_count = 0;
  next_retry_at = none;
  manual_review_required = false;
  manual_review_reason = none;
}

abbrev pub consume_quote : ℕ → PrepareInput → WireQuote → WireQuote → WireQuote
consume_quote now input quote row = record row {
  consumed_at = some now;
  client_address = some input.client_address;
  provider_agent_id = or_option quote.provider_agent_id input.provider_agent_id;
  provider_service_slug = or_option quote.provider_service_slug input.provider_service_slug;
}

abbrev pub open_transition : ℕ → WireJob → WireJobTransition
open_transition now job = record {
  wire_job_id = job.id;
  event_id = build_wire_open_event_id job.job_id;
  from_state = none;
  to_state = job_open;
  source_tx_hash = none;
  source_log_index = none;
  block_number = none;
  observed_at = now;
  confirmed_at = some now;
  confirmations_at_observation = some 0;
}

-- A new row of the outbox, not yet delivered.
abbrev pub outbox_row :
    ℕ → Text → WireJob → Text → WireContractState → WirePayload → WireWebhookOutbox
outbox_row now event_id job event_type state payload = record {
  event_id = event_id;
  wire_job_id = job.id;
  event_type = event_type;
  state = state;
  contract_state = state;
  payload_json = payload;
  delivery_status = undelivered;
  attempt_count = 0;
  last_attempt_at = none;
  next_attempt_at = none;
  delivered_at = none;
  last_error = none;
  created_at = now;
}

unfoldable pub announce_open : WireSettings → ℕ → WireJob → W (Unit {0})
unfolding create_outbox has_wire_webhook_target build_wire_open_webhook_event_id
    build_open_webhook_payload
announce_open cfg now job =
    if not (has_wire_webhook_target job)
    then return tt
    else create_outbox (
        outbox_row now (build_wire_open_webhook_event_id job.job_id) job (codes "wire.job.open")
          job_open (build_open_webhook_payload cfg job))

-- The writes of the transaction.
unfoldable pub place_job : WireSettings → Fresh → PrepareInput → WireQuote → W WireJob
unfolding create_job update_quote create_transition announce_open build_wire_open_event_id
place_job cfg fresh input quote = do
  job ← create_job (job_of cfg fresh input quote) (workflow_of fresh.row_id)
  _ ← update_quote (has_quote_id quote.quote_id) (consume_quote fresh.now input quote)
  create_transition (open_transition fresh.now job)
  announce_open cfg fresh.now job
  return job

-- The body of the transaction.
unfoldable pub open_job : WireSettings → Fresh → PrepareInput → W WireJob
unfolding check_wire_quote place_job
open_job cfg fresh input db =
    (lift (check_wire_quote fresh.now input (find (has_quote_id input.quote_id) db.quotes))
        >>= place_job cfg fresh input)
      db

-- `started` is the time of the first check, `preflight` the chain's answer on the balance, and
-- `between` what other requests write before the transaction.
unfoldable pub prepare_wire_job_from_quote :
    WireSettings
    → ℕ
    → (WireQuote → Result Bool)
    → (WireDb → WireDb)
    → Fresh
    → PrepareInput
    → WireDb
    → Result WireJob × WireDb
unfolding check_wire_quote open_job
prepare_wire_job_from_quote cfg started preflight between fresh input db =
    on_ok (check_wire_quote started input (find (has_quote_id input.quote_id) db.quotes)) db
      λ quote. on_ok (preflight quote) (between db) λ sufficient.
        if not sufficient
        then (err wire_job_insufficient_balance, between db)
        else transaction (open_job cfg fresh input) (between db)
