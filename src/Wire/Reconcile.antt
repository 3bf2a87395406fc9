-- ===== src/Wire/Reconcile.antt =====
-- lib/ghostwire-store.ts, the operator's transactions: a job's state follows what the chain has confirmed, with
-- a transition row and, for a job that has a target, a webhook event.
pub mod Moved
use ghost_protocol.Prelude.{
  ℕ, ◌+◌, ◌*◌, Bool, true, false, not, Option, none, some, Text, find, select, if◌then◌else◌,
  or_else, List, codes, ◌++◌, to_lower_case,
}
use ghost_protocol.Store.{
  Result, ok, err, ◌>>=◌, ◌>>◌, return, lift, transaction, wire_job_not_found,
}
use ghost_protocol.Wire.Schema.{
  WireDb, WireJob, WireWebhookOutbox, job_funded, WireTerminalDisposition, WireJobWorkflow,
  WireContractState, job_submitted, state_of_disposition, succeeded, WireJobTransition, valid,
  WireOperatorSpend, job_open,
}
use ghost_protocol.Wire.Config.{WireSettings}
use ghost_protocol.Wire.Terms.{
  has_wire_webhook_target, build_wire_funded_event_id, build_wire_submitted_event_id,
  build_wire_terminal_event_id, build_wire_submitted_webhook_event_id,
  build_wire_funded_webhook_event_id, build_wire_terminal_webhook_event_id,
  build_terminal_webhook_payload, build_submitted_webhook_payload, build_funded_webhook_payload,
  disposition_text,
}
use ghost_protocol.Wire.Tables.{
  W, has_job_id, has_id, of_job, found, update_job, update_workflow, upsert_outbox,
  upsert_transition, spent_on, require_job,
}
use ghost_protocol.Wire.Prepare.{outbox_row, or_option}

-- What the operator saw of one transaction on the chain.
pub record Confirmation : Type 0 where
  pub tx_hash : Option Text
  pub confirmed_at : ℕ
  pub block_number : ℕ
  pub confirmations : ℕ
  pub log_index : Option ℕ

-- Every stage of the workflow has come to its end; `create` and `fund` as they were.
abbrev pub settle_workflow : ℕ → WireJobWorkflow → WireJobWorkflow
settle_workflow at workflow = record workflow {
  artifact_status = succeeded;
  artifact_checked_at = some at;
  confirmation_status = succeeded;
  reconcile_status = succeeded;
  last_error = none;
  next_retry_at = none;
  last_attempt_at = some at;
  manual_review_required = false;
  manual_review_reason = none;
}

abbrev pub settle_funded_workflow : ℕ → WireJobWorkflow → WireJobWorkflow
settle_funded_workflow at workflow = record (settle_workflow at workflow) {
  create_status = succeeded;
  fund_status = succeeded;
}

abbrev pub transition_of :
    WireJob → Text → Option WireContractState → WireContractState → Confirmation → WireJobTransition
transition_of job event_id from_state to_state seen = record {
  wire_job_id = job.id;
  event_id = event_id;
  from_state = from_state;
  to_state = to_state;
  source_tx_hash = seen.tx_hash;
  source_log_index = seen.log_index;
  block_number = some seen.block_number;
  observed_at = seen.confirmed_at;
  confirmed_at = some seen.confirmed_at;
  confirmations_at_observation = some seen.confirmations;
}

-- `if (hasWireWebhookTarget(job)) await tx.wireWebhookOutbox.upsert(...)`.
unfoldable pub announce : WireJob → WireWebhookOutbox → W (Unit {0})
unfolding has_wire_webhook_target upsert_outbox
announce job row = if not (has_wire_webhook_target job) then return tt else upsert_outbox row

abbrev pub submit_job : ℕ → WireJob → WireJob
submit_job now job = record job {
  contract_state = job_submitted;
  public_state = job_submitted;
  artifact_validation_state = valid;
  artifact_validation_error = none;
  updated_at = now;
}

abbrev pub end_job : ℕ → WireTerminalDisposition → Option Text → WireJob → WireJob
end_job now state tx job = record job {
  contract_state = state_of_disposition state;
  public_state = state_of_disposition state;
  terminal_disposition = some state;
  terminal_tx_hash = or_option tx job.terminal_tx_hash;
  artifact_validation_state = valid;
  artifact_validation_error = none;
  updated_at = now;
}

-- Both branches of the source's conditionals write FUNDED.
abbrev pub fund_job : ℕ → WireJob → WireJob
fund_job now job = record job {
  contract_state = job_funded;
  public_state = job_funded;
  artifact_validation_state = valid;
  artifact_validation_error = none;
  updated_at = now;
}

-- The body that the three share: the job and its workflow are updated, the transition and the event upserted.
-- `now` is the time of the row's stamp.
unfoldable pub move_job :
    (WireJob → WireJob)
    → (WireJobWorkflow → WireJobWorkflow)
    → (WireJob → WireJobTransition)
    → (WireJob → WireJob → WireWebhookOutbox)
    → WireJob
    → W WireJob
unfolding update_job update_workflow upsert_transition announce
move_job f g transition event job = do
  updated ← update_job (has_id job.id) f
  _ ← update_workflow (of_job job.id) g
  upsert_transition (transition job)
  announce updated (event job updated)
  return updated

abbrev pub submitted_event : WireSettings → ℕ → Option Text → WireJob → WireJob → WireWebhookOutbox
submitted_event cfg now tx job updated =
    outbox_row now (build_wire_submitted_webhook_event_id job.job_id tx) job
      (codes "wire.job.submitted") job_submitted (build_submitted_webhook_payload cfg updated)

unfoldable pub reconcile_submitted_body : WireSettings → ℕ → Text → Confirmation → W WireJob
unfolding require_job move_job build_wire_submitted_event_id build_wire_submitted_webhook_event_id
    build_submitted_webhook_payload
reconcile_submitted_body cfg now job_id seen =
    require_job job_id
    >>= move_job (submit_job now) (settle_workflow seen.confirmed_at)
        (λ job.
          transition_of job (build_wire_submitted_event_id job.job_id seen.tx_hash)
            (some job.contract_state) job_submitted seen)
        (submitted_event cfg now seen.tx_hash)

unfoldable pub reconcile_wire_job_submitted_state :
    WireSettings → ℕ → Text → Confirmation → WireDb → Result WireJob × WireDb
unfolding reconcile_submitted_body
reconcile_wire_job_submitted_state cfg now job_id seen =
    transaction (reconcile_submitted_body cfg now job_id seen)

-- `wire.job.${state.toLowerCase()}`.
abbrev terminal_event_type : WireTerminalDisposition → Text
terminal_event_type state = codes "wire.job." ++ to_lower_case (disposition_text state)

abbrev pub terminal_event :
    WireSettings
    → ℕ
    → WireTerminalDisposition
    → Option Text
    → List WireOperatorSpend
    → WireJob
    → WireJob
    → WireWebhookOutbox
terminal_event cfg now state tx spends job updated =
    outbox_row now (build_wire_terminal_webhook_event_id job.job_id state tx) job
      (terminal_event_type state) (state_of_disposition state)
      (build_terminal_webhook_payload cfg updated spends)

unfoldable pub reconcile_terminal_body :
    WireSettings → ℕ → Text → WireTerminalDisposition → Confirmation → W WireJob
unfolding require_job move_job build_wire_terminal_event_id build_wire_terminal_webhook_event_id
    build_terminal_webhook_payload
reconcile_terminal_body cfg now job_id state seen db =
    (require_job job_id >>= λ job.
    move_job (end_job now state seen.tx_hash) (settle_workflow seen.confirmed_at)
      (λ job.
        transition_of job (build_wire_terminal_event_id job.job_id state seen.tx_hash)
          (some job.contract_state) (state_of_disposition state) seen)
      (terminal_event cfg now state seen.tx_hash (select (spent_on job.id) db.spends)) job)
      db

unfoldable pub reconcile_wire_job_terminal_state :
    WireSettings
    → ℕ
    → Text
    → WireTerminalDisposition
    → Confirmation
    → WireDb
    → Result WireJob × WireDb
unfolding reconcile_terminal_body
reconcile_wire_job_terminal_state cfg now job_id state seen =
    transaction (reconcile_terminal_body cfg now job_id state seen)

abbrev pub funded_event : WireSettings → ℕ → Text → WireJob → WireJob → WireWebhookOutbox
funded_event cfg now tx job updated =
    outbox_row now (build_wire_funded_webhook_event_id job.job_id tx) job (codes "wire.job.funded")
      job_funded (build_funded_webhook_payload cfg updated)

-- The transition always says that it comes from OPEN.
unfoldable pub reconcile_funded_body : WireSettings → ℕ → Text → Text → Confirmation → W WireJob
unfolding require_job move_job build_wire_funded_event_id build_wire_funded_webhook_event_id
    build_funded_webhook_payload
reconcile_funded_body cfg now job_id fund_tx_hash seen =
    require_job job_id
    >>= move_job (fund_job now) (settle_funded_workflow seen.confirmed_at)
        (λ job.
          transition_of job (build_wire_funded_event_id job.job_id fund_tx_hash) (some job_open)
            job_funded (record seen { tx_hash = some fund_tx_hash; log_index = none }))
        (funded_event cfg now fund_tx_hash)

unfoldable pub reconcile_wire_job_funded_state :
    WireSettings → ℕ → Text → Text → Confirmation → WireDb → Result WireJob × WireDb
unfolding reconcile_funded_body
reconcile_wire_job_funded_state cfg now job_id fund_tx_hash seen =
    transaction (reconcile_funded_body cfg now job_id fund_tx_hash seen)
