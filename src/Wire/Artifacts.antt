-- ===== src/Wire/Artifacts.antt =====
-- lib/ghostwire-store.ts, what is recorded of a job's transactions on the chain:
-- recordWireJobExecutionArtifacts, recordWireJobTerminalArtifacts and upsertWireOperatorSpend.
pub mod Kept
use ghost_protocol.Prelude.{
  ℕ, Bool, true, false, ◌&&◌, ◌||◌, not, Option, none, some, List, Text, String, text_eq,
  to_lower_case, or_else, find, if◌then◌else◌,
}
use ghost_protocol.Store.{
  Result, ok, err, ◌>>=◌, ◌>>◌, return, guard, transaction, on_ok, wire_job_execution_conflict,
  wire_job_not_found, lift,
}
use ghost_protocol.Wire.Schema.{
  WireDb, WireJob, WireJobWorkflow, WireWorkflowStatus, in_progress, failed,
  WireArtifactValidationState, manual_review, WireOperatorSpend, pending,
}
use ghost_protocol.Wire.Tables.{
  W, has_id, of_job, update_job, update_workflow, upsert, has_job_id, has_tx_hash, require_job,
  found,
}
use ghost_protocol.Wire.Terms.{truthy}
use ghost_protocol.Wire.Prepare.{or_option}

-- An outer `none` is `undefined`, which leaves a column or falls back to it.
pub record Artifacts : Type 0 where
  pub contract_address : Option Text
  pub contract_job_id : Option Text
  pub create_tx_hash : Option Text
  pub create_tx_sender : Option Text
  pub fund_tx_hash : Option Text
  pub fund_tx_sender : Option Text
  pub artifact_validation_state : Option WireArtifactValidationState
  pub artifact_validation_error : Option (Option Text)
  pub artifact_status : Option WireWorkflowStatus
  pub create_status : Option WireWorkflowStatus
  pub fund_status : Option WireWorkflowStatus
  pub confirmation_status : Option WireWorkflowStatus
  pub reconcile_status : Option WireWorkflowStatus
  pub artifact_checked_at : Option ℕ
  pub artifact_last_checked_block : Option (Option ℕ)

-- `a && b && a !== b`, of texts, and of texts in lower case.
unfoldable pub conflicts : Option Text → Option Text → Bool
conflicts (some s) (some t) = truthy (some s) && truthy (some t) && not (text_eq s t)
conflicts s t = false

unfoldable pub conflicts_lower : Option Text → Option Text → Bool
conflicts_lower (some s) (some t) =
    truthy (some s) && truthy (some t) && not (text_eq (to_lower_case s) (to_lower_case t))
conflicts_lower s t = false

unfoldable pub no_conflict : Artifacts → WireJob → W (Unit {0})
unfolding conflicts conflicts_lower
no_conflict input job =
    guard (not (conflicts_lower job.contract_address input.contract_address)) (
      wire_job_execution_conflict
        "Wire job contract address conflicts with existing execution record.")
    >> guard (not (conflicts job.contract_job_id input.contract_job_id)) (
        wire_job_execution_conflict
          "Wire job contract identifier conflicts with existing execution record.")
    >> guard (not (conflicts_lower job.create_tx_hash input.create_tx_hash)) (
        wire_job_execution_conflict
          "Wire job create transaction hash conflicts with existing execution record.")
    >> guard (not (conflicts_lower job.create_tx_sender input.create_tx_sender)) (
        wire_job_execution_conflict
          "Wire job create transaction sender conflicts with existing execution record.")
    >> guard (not (conflicts_lower job.fund_tx_hash input.fund_tx_hash)) (
        wire_job_execution_conflict
          "Wire job fund transaction hash conflicts with existing execution record.")
    >> guard (not (conflicts_lower job.fund_tx_sender input.fund_tx_sender)) (
        wire_job_execution_conflict
          "Wire job fund transaction sender conflicts with existing execution record.")

-- `job.workflow?.status ?? "PENDING"`, and `job.workflow?.column ?? null`.
abbrev pub status_or_pending :
    (WireJobWorkflow → WireWorkflowStatus) → Option WireJobWorkflow → WireWorkflowStatus
status_or_pending column none = pending
status_or_pending column (some workflow) = column workflow

abbrev pub column_or_null : (WireJobWorkflow → Option ℕ) → Option WireJobWorkflow → Option ℕ
column_or_null column none = none
column_or_null column (some workflow) = column workflow

-- `read` is the job's workflow as it was read, and `workflow` the row that is written.
abbrev pub record_workflow :
    ℕ → Artifacts → Option WireJobWorkflow → WireJobWorkflow → WireJobWorkflow
record_workflow now input read workflow = record workflow {
  artifact_status = or_else input.artifact_status (status_or_pending (λ w. w.artifact_status) read);
  create_status = or_else input.create_status (status_or_pending (λ w. w.create_status) read);
  fund_status = or_else input.fund_status (status_or_pending (λ w. w.fund_status) read);
  confirmation_status =
      or_else input.confirmation_status (status_or_pending (λ w. w.confirmation_status) read);
  reconcile_status =
      or_else input.reconcile_status (status_or_pending (λ w. w.reconcile_status) read);
  artifact_checked_at =
      or_null input.artifact_checked_at (column_or_null (λ w. w.artifact_checked_at) read);
  artifact_last_checked_block =
      or_else input.artifact_last_checked_block
        (column_or_null (λ w. w.artifact_last_checked_block) read);
  last_error = none;
  next_retry_at = none;
  last_attempt_at = some now;
  manual_review_required = false;
  manual_review_reason = none;
}
  where
    or_null : Option ℕ → Option ℕ → Option ℕ
    or_null none b = b
    or_null (some a) b = some a

-- `job` is the row as it was read, and `row` the one that is written.
abbrev pub record_job : ℕ → Artifacts → WireJob → WireJob → WireJob
record_job now input job row = record row {
  contract_address = or_option input.contract_address job.contract_address;
  contract_job_id = or_option input.contract_job_id job.contract_job_id;
  create_tx_hash = or_option input.create_tx_hash job.create_tx_hash;
  create_tx_sender = or_option input.create_tx_sender job.create_tx_sender;
  fund_tx_hash = or_option input.fund_tx_hash job.fund_tx_hash;
  fund_tx_sender = or_option input.fund_tx_sender job.fund_tx_sender;
  artifacts_recorded_at =
      if truthy input.create_tx_hash
        || truthy input.fund_tx_hash
        || truthy input.create_tx_sender
        || truthy input.fund_tx_sender
      then some now
      else job.artifacts_recorded_at;
  artifact_validation_state = or_else input.artifact_validation_state job.artifact_validation_state;
  artifact_validation_error = or_else input.artifact_validation_error job.artifact_validation_error;
  updated_at = now;
}

-- What the transaction does once the job and its workflow have been read.
unfoldable pub record_artifacts_body : ℕ → Artifacts → WireJob → Option WireJobWorkflow → W WireJob
unfolding no_conflict update_workflow update_job
record_artifacts_body now input job read = do
  no_conflict input job
  _ ← update_workflow (of_job job.id) (record_workflow now input read)
  update_job (has_id job.id) (record_job now input job)

-- The job and its workflow are read without a lock; `between` is what other requests commit between that
-- read and the writes.
unfoldable pub record_wire_job_execution_artifacts :
    ℕ → (WireDb → WireDb) → Text → Artifacts → WireDb → Result WireJob × WireDb
unfolding record_artifacts_body
record_wire_job_execution_artifacts now between job_id input db =
    on_ok (found (find (has_job_id job_id) db.jobs) wire_job_not_found) db λ job.
      transaction (record_artifacts_body now input job (find (of_job job.id) db.workflows))
        (between db)

abbrev pub await_terminal : ℕ → WireJobWorkflow → WireJobWorkflow
await_terminal now workflow = record workflow {
  confirmation_status = in_progress;
  reconcile_status = pending;
  last_error = none;
  next_retry_at = none;
  last_attempt_at = some now;
  manual_review_required = false;
  manual_review_reason = none;
}

-- `a && a !== b`, in lower case: the recorded hash must be truthy, the new one need not be.
unfoldable pub conflicts_recorded : Option Text → Text → Bool
conflicts_recorded none tx = false
conflicts_recorded (some s) tx =
    truthy (some s) && not (text_eq (to_lower_case s) (to_lower_case tx))

abbrev pub set_terminal_tx : ℕ → Text → WireJob → WireJob
set_terminal_tx now tx row = record row { terminal_tx_hash = some tx; updated_at = now }

unfoldable pub record_terminal_body : ℕ → Text → Text → W WireJob
unfolding require_job conflicts_recorded update_workflow update_job
record_terminal_body now job_id tx = do
  job ← require_job job_id
  guard (not (conflicts_recorded job.terminal_tx_hash tx)) (
      wire_job_execution_conflict
        "Wire job terminal transaction hash conflicts with existing execution record.")
  _ ← update_workflow (of_job job.id) (await_terminal now)
  update_job (has_id job.id) (set_terminal_tx now tx)

unfoldable pub record_wire_job_terminal_artifacts :
    ℕ → Text → Text → WireDb → Result WireJob × WireDb
unfolding record_terminal_body
record_wire_job_terminal_artifacts now job_id tx = transaction (record_terminal_body now job_id tx)

-- The update of a recorded spend leaves its job.
unfoldable pub upsert_wire_operator_spend : WireOperatorSpend → WireDb → WireDb
unfolding upsert
upsert_wire_operator_spend spend db = record db {
  spends = upsert (has_tx_hash spend.tx_hash) rewrite spend db.spends;
}
  where
    rewrite : WireOperatorSpend → WireOperatorSpend
    rewrite row = record row {
      action_type = spend.action_type;
      gas_used = spend.gas_used;
      effective_gas_price = spend.effective_gas_price;
      native_amount_spent = spend.native_amount_spent;
    }
