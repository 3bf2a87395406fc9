-- ===== src/Wire/History.antt =====
-- lib/ghostwire-store.ts as a whole: the operations that routes and the operator call, in any order. A call that
-- reads before its transaction carries the calls that others finish in between.
pub mod Evolves
pub mod Steps
pub mod Once
use ghost_protocol.Prelude.{ℕ, Option, Text, Bool}
use ghost_protocol.Store.{Result, transaction}
use ghost_protocol.Wire.Schema.{
  WireDb, WireQuote, WireTerminalDisposition, WireOperatorSpend, WireWebhookOutbox,
}
use ghost_protocol.Wire.Quotes.{QuoteInput, create_wire_quote, PrepareInput}
use ghost_protocol.Wire.Config.{WireSettings}
use ghost_protocol.Wire.Prepare.{Fresh, prepare_wire_job_from_quote}
use ghost_protocol.Wire.Reconcile.{
  reconcile_wire_job_funded_state, Confirmation, reconcile_wire_job_submitted_state,
  reconcile_wire_job_terminal_state,
}
use ghost_protocol.Wire.Artifacts.{
  Artifacts, record_wire_job_execution_artifacts, record_wire_job_terminal_artifacts,
  upsert_wire_operator_spend,
}
use ghost_protocol.Wire.Review.{
  Stage, Checkpoint, mark_wire_job_for_manual_review, fail_wire_job_artifact_validation,
  update_artifact_recovery_checkpoint,
}
use ghost_protocol.Wire.Outbox.{Response, deliver_webhook_event}

mutual
  pub data WireCall : Type 0 where
    create_quote_call : Text → ℕ → QuoteInput → WireCall
    prepare_call : WireCalls → ℕ → (WireQuote → Result Bool) → Fresh → PrepareInput → WireCall
    funded_call : ℕ → Text → Text → Confirmation → WireCall
    submitted_call : ℕ → Text → Confirmation → WireCall
    terminal_call : ℕ → Text → WireTerminalDisposition → Confirmation → WireCall
    artifacts_call : WireCalls → ℕ → Text → Artifacts → WireCall
    terminal_artifacts_call : ℕ → Text → Text → WireCall
    spend_call : WireOperatorSpend → WireCall
    review_call : ℕ → Text → Stage → Text → WireCall
    fail_call : WireCalls → ℕ → Text → Stage → Text → Option (Option ℕ) → WireCall
    checkpoint_call : ℕ → Text → Checkpoint → WireCall
    deliver_call :
        (ℕ → Text) → ℕ → Option Text → Option Text → Response → WireWebhookOutbox → WireCall

  pub data WireCalls : Type 0 where
    no_calls : WireCalls
    call_then : WireCall → WireCalls → WireCalls

unfoldable mutual
  -- The database after a call, whatever it answered.
  pub run : WireSettings → WireCall → WireDb → WireDb
  run cfg (create_quote_call id now input) db =
      (transaction (create_wire_quote cfg id now input) db).1
  run cfg (prepare_call others started preflight fresh input) db =
      (prepare_wire_job_from_quote cfg started preflight (run_all cfg others) fresh input db).1
  run cfg (funded_call now job_id tx seen) db =
      (reconcile_wire_job_funded_state cfg now job_id tx seen db).1
  run cfg (submitted_call now job_id seen) db =
      (reconcile_wire_job_submitted_state cfg now job_id seen db).1
  run cfg (terminal_call now job_id state seen) db =
      (reconcile_wire_job_terminal_state cfg now job_id state seen db).1
  run cfg (artifacts_call others now job_id input) db =
      (record_wire_job_execution_artifacts now (run_all cfg others) job_id input db).1
  run cfg (terminal_artifacts_call now job_id tx) db =
      (record_wire_job_terminal_artifacts now job_id tx db).1
  run cfg (spend_call spend) db = upsert_wire_operator_spend spend db
  run cfg (review_call now id stage reason) db =
      (mark_wire_job_for_manual_review now id stage reason db).1
  run cfg (fail_call others now job_id stage reason block) db =
      (fail_wire_job_artifact_validation now (run_all cfg others) job_id stage reason block db).1
  run cfg (checkpoint_call now id input) db =
      (update_artifact_recovery_checkpoint now id input db).1
  run cfg (deliver_call number_text now target_url secret response event) db =
      (deliver_webhook_event number_text now target_url secret response event db).1

  pub run_all : WireSettings → WireCalls → WireDb → WireDb
  run_all cfg no_calls db = db
  run_all cfg (call_then c cs) db = run_all cfg cs (run cfg c db)
