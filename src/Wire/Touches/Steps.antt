-- ===== src/Wire/Touches/Steps.antt =====
-- The operations on jobs that are there, each of which leaves the quotes and the terms of every job.
use ghost_protocol.Prelude.{
  ℕ, refl, arith, Bool, not, Option, none, some, Text, find, Option-cases, inl, inr, sym, select,
}
use ghost_protocol.Store.{
  ◌>>◌, ◌>>=◌, >>=-eq-ok, transaction, transaction-keeps, guard, guard-db,
  wire_job_execution_conflict,
}
use ghost_protocol.Wire.Schema.{
  WireDb, WireJob, WireJobWorkflow, WireJobTransition, WireWebhookOutbox, job_submitted, job_open,
  job_funded, manual_review, WireTerminalDisposition, state_of_disposition,
}
use ghost_protocol.Wire.Touches.{SameTerms, Touches, Touches-refl, Touches-apart, Touches-update}
use ghost_protocol.Wire.Reconcile.{
  reconcile_wire_job_funded_state, reconcile_wire_job_submitted_state, reconcile_submitted_body,
  reconcile_funded_body, Confirmation, move_job, fund_job, submit_job, settle_workflow,
  settle_funded_workflow, transition_of, submitted_event, funded_event,
  reconcile_wire_job_terminal_state, reconcile_terminal_body, end_job, terminal_event,
}
use ghost_protocol.Wire.Config.{WireSettings}
use ghost_protocol.Wire.Reconcile.Moved.{Stepped, move_job-Stepped}
use ghost_protocol.Wire.Tables.{
  require_job, has_id, update_job, update_workflow, of_job, is_event, spent_on, W,
}
use ghost_protocol.Wire.Tables.Writes.{require_job-found, update_job-writes, update_workflow-writes}
use mathlib.Core.Path.{subst}
use ghost_protocol.Wire.Terms.{
  build_wire_funded_event_id, build_wire_submitted_event_id, build_wire_terminal_event_id,
}
use ghost_protocol.Wire.Artifacts.{
  record_wire_job_terminal_artifacts, Artifacts, record_terminal_body, record_artifacts_body,
  record_job, await_terminal, set_terminal_tx, conflicts_recorded,
}
use ghost_protocol.Wire.Review.{
  mark_wire_job_for_manual_review, fail_validation_body, update_artifact_recovery_checkpoint,
  Checkpoint, Stage, review_workflow, fail_workflow, checkpoint_workflow,
}
use ghost_protocol.Wire.Outbox.{deliver_webhook_event, update_outbox_delivery, Response}
use ghost_protocol.Wire.Artifacts.Kept.{record_artifacts_body-Recorded}

Stepped-Touches :
    (f : WireJob → WireJob) (g : WireJobWorkflow → WireJobWorkflow) (transition : WireJobTransition)
    (job : WireJob) (db : WireDb) {job' : WireJob} {db' : WireDb}
    → ((row : WireJob) → SameTerms row (f row))
    → Stepped f g transition job db job' db'
    → Touches db db'
Stepped-Touches f g transition job db {job'} {db'} keep s =
    Touches-update (has_id job.id) f db db' keep s.quotes s.jobs

-- A transaction that finds a job and moves it.
move_found-Touches :
    (f : WireJob → WireJob → WireJob) (g : WireJobWorkflow → WireJobWorkflow)
    (transition : WireJob → WireJobTransition)
    (event : WireJob → WireJob → WireJob → WireWebhookOutbox) (job_id : Text) (db : WireDb)
    → ((job row : WireJob) → SameTerms row (f job row))
    → Touches db
        (transaction
          (require_job job_id >>= λ job. move_job (f job) g transition (event job) job)
          db).1
move_found-Touches f g transition event job_id db keep =
    transaction-keeps (Touches db)
      (require_job job_id >>= λ job. move_job (f job) g transition (event job) job) db
      (Touches-refl db)
      (λ job' db' e.
        let (job, db₁, required, moved) =
          >>=-eq-ok (require_job job_id) (λ job. move_job (f job) g transition (event job) job) db
            e in
        let (same, there) = require_job-found job_id db {job = job} {db' = db₁} required in
        let s = move_job-Stepped (f job) g transition (event job) job db₁ {db' = db'} moved in
        subst (λ d. Touches d db') (sym same)
          (Stepped-Touches (f job) g (transition job) job db₁ (keep job) s))

pub reconcile_wire_job_funded_state-Touches :
    (cfg : WireSettings) (now : ℕ) (job_id tx : Text) (seen : Confirmation) (db : WireDb)
    → Touches db (reconcile_wire_job_funded_state cfg now job_id tx seen db).1
unfolding reconcile_wire_job_funded_state reconcile_funded_body
reconcile_wire_job_funded_state-Touches cfg now job_id tx seen db =
    move_found-Touches (λ _. fund_job now) (settle_funded_workflow seen.confirmed_at)
      (λ job.
        transition_of job (build_wire_funded_event_id job.job_id tx) (some job_open) job_funded
          (record seen { tx_hash = some tx; log_index = none }))
      (λ _. funded_event cfg now tx) job_id db (λ _ row. refl)

pub reconcile_wire_job_submitted_state-Touches :
    (cfg : WireSettings) (now : ℕ) (job_id : Text) (seen : Confirmation) (db : WireDb)
    → Touches db (reconcile_wire_job_submitted_state cfg now job_id seen db).1
unfolding reconcile_wire_job_submitted_state reconcile_submitted_body
reconcile_wire_job_submitted_state-Touches cfg now job_id seen db =
    move_found-Touches (λ _. submit_job now) (settle_workflow seen.confirmed_at)
      (λ job.
        transition_of job (build_wire_submitted_event_id job.job_id seen.tx_hash)
          (some job.contract_state) job_submitted seen)
      (λ _. submitted_event cfg now seen.tx_hash) job_id db (λ _ row. refl)

pub reconcile_wire_job_terminal_state-Touches :
    (cfg : WireSettings) (now : ℕ) (job_id : Text) (state : WireTerminalDisposition)
    (seen : Confirmation) (db : WireDb)
    → Touches db (reconcile_wire_job_terminal_state cfg now job_id state seen db).1
unfolding reconcile_wire_job_terminal_state reconcile_terminal_body
reconcile_wire_job_terminal_state-Touches cfg now job_id state seen db =
    move_found-Touches (λ _. end_job now state seen.tx_hash) (settle_workflow seen.confirmed_at)
      (λ job.
        transition_of job (build_wire_terminal_event_id job.job_id state seen.tx_hash)
          (some job.contract_state) (state_of_disposition state) seen)
      (λ job. terminal_event cfg now state seen.tx_hash (select (spent_on job.id) db.spends)) job_id
      db (λ _ row. refl)

pub record_artifacts-Touches :
    (now : ℕ) (input : Artifacts) (job : WireJob) (read : Option WireJobWorkflow) (db : WireDb)
    → Touches db (transaction (record_artifacts_body now input job read) db).1
record_artifacts-Touches now input job read db =
    transaction-keeps (Touches db) (record_artifacts_body now input job read) db (Touches-refl db)
      (λ job' db' e.
        let r = record_artifacts_body-Recorded now input job read db {job' = job'} {db' = db'} e in
        Touches-update (has_id job.id) (record_job now input job) db db' (λ row. refl) r.quotes
          r.jobs)

-- One update of a workflow.
update_workflow-Touches :
    (p : WireJobWorkflow → Bool) (f : WireJobWorkflow → WireJobWorkflow) (db : WireDb)
    → Touches db (transaction (update_workflow p f) db).1
update_workflow-Touches p f db =
    transaction-keeps (Touches db) (update_workflow p f) db (Touches-refl db) (λ workflow db' e.
      let (_, _, _, written) = update_workflow-writes p f db {db' = db'} e in
      Touches-apart db db' (ground arith) (ground arith))

pub mark_wire_job_for_manual_review-Touches :
    (now : ℕ) (id : Text) (stage : Stage) (reason : Text) (db : WireDb)
    → Touches db (mark_wire_job_for_manual_review now id stage reason db).1
unfolding mark_wire_job_for_manual_review
mark_wire_job_for_manual_review-Touches now id stage reason db =
    update_workflow-Touches (of_job id) (review_workflow now stage reason) db

pub update_artifact_recovery_checkpoint-Touches :
    (now : ℕ) (id : Text) (input : Checkpoint) (db : WireDb)
    → Touches db (update_artifact_recovery_checkpoint now id input db).1
unfolding update_artifact_recovery_checkpoint
update_artifact_recovery_checkpoint-Touches now id input db =
    update_workflow-Touches (of_job id) (checkpoint_workflow now input) db

-- One update of a job after reads, and one of its workflow.
update_both-Touches :
    (p : WireJob → Bool) (f : WireJob → WireJob) (q : WireJobWorkflow → Bool)
    (g : WireJobWorkflow → WireJobWorkflow) (db : WireDb)
    → ((row : WireJob) → SameTerms row (f row))
    → Touches db (transaction (update_job p f >>= λ _. update_workflow q g) db).1
update_both-Touches p f q g db keep =
    transaction-keeps (Touches db) (update_job p f >>= λ _. update_workflow q g) db
      (Touches-refl db)
      (λ workflow db' e.
        let (_, db₁, updated, rest) = >>=-eq-ok (update_job p f) (λ _. update_workflow q g) db e in
        let (_, _, _, w₁) = update_job-writes p f db {db' = db₁} updated in
        let (_, _, _, w₂) = update_workflow-writes q g db₁ {db' = db'} rest in
        Touches-update p f db db' keep (ground arith) (ground arith))

pub fail_validation-Touches :
    (now : ℕ) (id : Text) (stage : Stage) (reason : Text) (block : Option (Option ℕ)) (db : WireDb)
    → Touches db (transaction (fail_validation_body now id stage reason block) db).1
unfolding fail_validation_body
fail_validation-Touches now id stage reason block db =
    update_both-Touches (has_id id)
      (λ row. record row {
        artifact_validation_state = manual_review;
        artifact_validation_error = some reason;
        updated_at = now;
      })
      (of_job id) (fail_workflow now stage reason block) db (λ row. refl)

pub deliver_webhook_event-Touches :
    (number_text : ℕ → Text) (now : ℕ) (target_url secret : Option Text) (response : Response)
    (event : WireWebhookOutbox) (db : WireDb)
    → Touches db (deliver_webhook_event number_text now target_url secret response event db).1
unfolding deliver_webhook_event update_outbox_delivery
deliver_webhook_event-Touches number_text now target_url secret response event db =
    elim (Option-cases (find (is_event event.event_id) db.outbox)) [
      | inl gone ↦ rw (gone, update_outbox_delivery) (Touches-refl db)
      | inr (row, there) ↦ rw (there, update_outbox_delivery) (Touches-apart db _ refl refl)
    ]

pub record_wire_job_terminal_artifacts-Touches :
    (now : ℕ) (job_id tx : Text) (db : WireDb)
    → Touches db (record_wire_job_terminal_artifacts now job_id tx db).1
unfolding record_wire_job_terminal_artifacts record_terminal_body
record_wire_job_terminal_artifacts-Touches now job_id tx db =
    let conflict =
      wire_job_execution_conflict
        "Wire job terminal transaction hash conflicts with existing execution record." in
    let write : WireJob → W WireJob = λ job.
      update_workflow (of_job job.id) (await_terminal now) >>= λ _.
      update_job (has_id job.id) (set_terminal_tx now tx) in
    let rest : WireJob → W WireJob =
      λ job. guard (not (conflicts_recorded job.terminal_tx_hash tx)) conflict >> write job in
    transaction-keeps (Touches db) (require_job job_id >>= rest) db (Touches-refl db) (λ job' db' e.
      let (job, db₁, required, e₁) = >>=-eq-ok (require_job job_id) rest db e in
      let (same, there) = require_job-found job_id db {job = job} {db' = db₁} required in
      let (_, db₂, checked, e₂) =
        >>=-eq-ok (guard (not (conflicts_recorded job.terminal_tx_hash tx)) conflict)
          (λ _. write job) db₁ e₁ in
      let same₁ =
        guard-db (not (conflicts_recorded job.terminal_tx_hash tx)) conflict db₁ {db' = db₂}
          checked in
      let (_, db₃, worked, e₃) =
        >>=-eq-ok (update_workflow (of_job job.id) (await_terminal now))
          (λ _. update_job (has_id job.id) (set_terminal_tx now tx)) db₂ e₂ in
      let (_, _, _, w₁) =
        update_workflow-writes (of_job job.id) (await_terminal now) db₂ {db' = db₃} worked in
      let (_, _, _, w₂) =
        update_job-writes (has_id job.id) (set_terminal_tx now tx) db₃ {db' = db'} e₃ in
      Touches-update (has_id job.id) (set_terminal_tx now tx) db db' (λ row. refl) (ground arith)
        (ground arith))
