-- ===== src/Wire/Review.antt =====
-- lib/ghostwire-store.ts, jobs that a person must look at, and the progress of the search for their
-- transactions: failWireJobArtifactValidation, markWireJobForManualReview and
-- updateWireArtifactRecoveryCheckpoint.
use ghost_protocol.Prelude.{
  ℕ, Bool, true, false, ◌||◌, Option, none, some, Text, or_else, find, if◌then◌else◌,
}
use ghost_protocol.Store.{Result, err, ◌>>=◌, transaction, wire_job_not_found}
use ghost_protocol.Wire.Schema.{WireDb, WireJobWorkflow, WireWorkflowStatus, manual_review, failed}
use ghost_protocol.Wire.Tables.{W, has_id, of_job, update_job, update_workflow, has_job_id}
use ghost_protocol.Wire.Prepare.{or_option}

pub data Stage : Type 0 where
  create_stage fund_stage confirmation_stage reconcile_stage : Stage

abbrev pub is_create : Stage → Bool
is_create create_stage = true
is_create stage = false

abbrev pub is_fund : Stage → Bool
is_fund fund_stage = true
is_fund stage = false

abbrev is_confirmation : Stage → Bool
is_confirmation confirmation_stage = true
is_confirmation stage = false

abbrev is_reconcile : Stage → Bool
is_reconcile reconcile_stage = true
is_reconcile stage = false

abbrev failed_if : Bool → WireWorkflowStatus → WireWorkflowStatus
failed_if b status = if b then failed else status

abbrev pub review_workflow : ℕ → Stage → Text → WireJobWorkflow → WireJobWorkflow
review_workflow now stage reason workflow = record workflow {
  artifact_status = failed_if (is_create stage || is_fund stage) workflow.artifact_status;
  create_status = failed_if (is_create stage) workflow.create_status;
  fund_status = failed_if (is_fund stage) workflow.fund_status;
  confirmation_status = failed_if (is_confirmation stage) workflow.confirmation_status;
  reconcile_status = failed_if (is_reconcile stage) workflow.reconcile_status;
  artifact_checked_at = some now;
  manual_review_required = true;
  manual_review_reason = some reason;
  last_error = some reason;
  next_retry_at = none;
  last_attempt_at = some now;
}

-- By the row's id, though the source's argument is called jobId.
unfoldable pub mark_wire_job_for_manual_review :
    ℕ → Text → Stage → Text → WireDb → Result WireJobWorkflow × WireDb
unfolding update_workflow
mark_wire_job_for_manual_review now id stage reason =
    transaction (update_workflow (of_job id) (review_workflow now stage reason))

-- The stage is `create` or `fund`.
abbrev pub fail_workflow : ℕ → Stage → Text → Option (Option ℕ) → WireJobWorkflow → WireJobWorkflow
fail_workflow now stage reason block workflow = record workflow {
  artifact_status = failed;
  artifact_checked_at = some now;
  artifact_last_checked_block = or_else block workflow.artifact_last_checked_block;
  last_error = some reason;
  manual_review_required = true;
  manual_review_reason = some reason;
  create_status = failed_if (is_create stage) workflow.create_status;
  fund_status = failed_if (is_fund stage) workflow.fund_status;
  next_retry_at = none;
  last_attempt_at = some now;
}

unfoldable pub fail_validation_body :
    ℕ → Text → Stage → Text → Option (Option ℕ) → W WireJobWorkflow
unfolding update_job update_workflow
fail_validation_body now id stage reason block = do
  _ ← update_job (has_id id) (λ row. record row {
    artifact_validation_state = manual_review;
    artifact_validation_error = some reason;
    updated_at = now;
  })
  update_workflow (of_job id) (fail_workflow now stage reason block)

-- `between` is what other requests write after the job has been read.
unfoldable pub fail_wire_job_artifact_validation :
    ℕ
    → (WireDb → WireDb)
    → Text
    → Stage
    → Text
    → Option (Option ℕ)
    → WireDb
    → Result WireJobWorkflow × WireDb
unfolding fail_validation_body
fail_wire_job_artifact_validation now between job_id stage reason block db =
    elim (find (has_job_id job_id) db.jobs) [
      | none ↦ (err wire_job_not_found, db)
      | some job ↦ transaction (fail_validation_body now job.id stage reason block) (between db)
    ]

pub record Checkpoint : Type 0 where
  pub artifact_status : Option WireWorkflowStatus
  pub artifact_checked_at : Option ℕ
  pub artifact_last_checked_block : Option ℕ
  pub last_error : Option Text
  pub next_retry_at : Option ℕ

-- A null argument is turned into `undefined`, so it leaves the column.
abbrev pub checkpoint_workflow : ℕ → Checkpoint → WireJobWorkflow → WireJobWorkflow
checkpoint_workflow now input workflow = record workflow {
  artifact_status = or_else input.artifact_status workflow.artifact_status;
  artifact_checked_at = keep input.artifact_checked_at workflow.artifact_checked_at;
  artifact_last_checked_block =
      keep input.artifact_last_checked_block workflow.artifact_last_checked_block;
  last_error = or_option input.last_error workflow.last_error;
  next_retry_at = keep input.next_retry_at workflow.next_retry_at;
  last_attempt_at = some now;
}
  where
    keep : Option ℕ → Option ℕ → Option ℕ
    keep none b = b
    keep (some a) b = some a

unfoldable pub update_artifact_recovery_checkpoint :
    ℕ → Text → Checkpoint → WireDb → Result WireJobWorkflow × WireDb
unfolding update_workflow
update_artifact_recovery_checkpoint now id input =
    transaction (update_workflow (of_job id) (checkpoint_workflow now input))
