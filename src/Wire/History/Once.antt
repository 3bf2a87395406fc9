-- ===== src/Wire/History/Once.antt =====
-- Along any history of calls: a quote is used once, a job's terms are fixed, and its settlement shares out what was
-- quoted.
use ghost_protocol.Prelude.{
  ℕ, ◌≡◌, refl, Bool, Option, some, List, Text, find, All-find, ◌⊎◌, Option-cases, inl, inr,
}
use ghost_protocol.Store.{ok, err, Error, Result, on_ok-keeps, wire_job_not_found}
use ghost_protocol.Wire.Schema.{WireDb, WireJob, WireQuote, WireOperatorSpend, TerminalSettlement}
use ghost_protocol.Wire.History.{
  WireCall, WireCalls, run, run_all, create_quote_call, prepare_call, funded_call, submitted_call,
  terminal_call, artifacts_call, terminal_artifacts_call, spend_call, review_call, fail_call,
  checkpoint_call, deliver_call, call_then, no_calls,
}
use ghost_protocol.Wire.History.Evolves.{
  Evolves, Evolves-refl, Evolves-trans, Touches-Evolves, IsSound, Backed,
}
use ghost_protocol.Wire.History.Steps.{create_wire_quote-Evolves, prepare-Evolves}
use ghost_protocol.Wire.Artifacts.{
  upsert_wire_operator_spend, record_wire_job_execution_artifacts, Artifacts,
}
use ghost_protocol.Wire.Review.{fail_wire_job_artifact_validation, Stage}
use ghost_protocol.Wire.Config.{WireSettings}
use ghost_protocol.Wire.Prepare.{Fresh, prepare_wire_job_from_quote}
use ghost_protocol.Wire.Tables.{has_job_id, has_quote_id, found, of_job}
use ghost_protocol.Wire.Touches.{SameTerms, Touches-apart}
use ghost_protocol.Wire.Quotes.{PrepareInput}
use ghost_protocol.Wire.Touches.Steps.{
  fail_validation-Touches, reconcile_wire_job_funded_state-Touches,
  reconcile_wire_job_submitted_state-Touches, reconcile_wire_job_terminal_state-Touches,
  record_artifacts-Touches, record_wire_job_terminal_artifacts-Touches,
  mark_wire_job_for_manual_review-Touches, update_artifact_recovery_checkpoint-Touches,
  deliver_webhook_event-Touches,
}
use ghost_protocol.Wire.Terms.{derive_terminal_settlement}
use ghost_protocol.Wire.Prepare.Once.{
  prepare_wire_job_from_quote-Opened, prepare_wire_job_from_quote-consumed,
}
use ghost_protocol.Wire.Terms.Shares.{IsShared, derive_terminal_settlement-IsShared}
use mathlib.Core.Path.{subst}

fail-Evolves :
    (cfg : WireSettings) (now : ℕ) (between : WireDb → WireDb) (job_id : Text) (stage : Stage)
    (reason : Text) (block : Option (Option ℕ)) (db : WireDb)
    → Evolves cfg db (between db)
    → Evolves cfg db (fail_wire_job_artifact_validation now between job_id stage reason block db).1
unfolding fail_wire_job_artifact_validation
fail-Evolves cfg now between job_id stage reason block db others =
    elim (Option-cases (find (has_job_id job_id) db.jobs)) [
      | inl gone ↦ rw (gone, fail_wire_job_artifact_validation) (Evolves-refl cfg db)
      | inr (job, there) ↦
          rw (there, fail_wire_job_artifact_validation)
            (Evolves-trans cfg db (between db) _ others (
              Touches-Evolves cfg (between db) _
                (fail_validation-Touches now job.id stage reason block (between db))))
    ]

artifacts-Evolves :
    (cfg : WireSettings) (now : ℕ) (between : WireDb → WireDb) (job_id : Text) (input : Artifacts)
    (db : WireDb)
    → Evolves cfg db (between db)
    → Evolves cfg db (record_wire_job_execution_artifacts now between job_id input db).1
unfolding record_wire_job_execution_artifacts
artifacts-Evolves cfg now between job_id input db others =
    on_ok-keeps (λ (x : Result WireJob × WireDb). Evolves cfg db x.1)
      (found (find (has_job_id job_id) db.jobs) wire_job_not_found) db _ (λ _. Evolves-refl cfg db)
      λ job. Evolves-trans cfg db (between db) _ others (
        Touches-Evolves cfg (between db) _
          (record_artifacts-Touches now input job (find (of_job job.id) db.workflows) (between db)))

mutual
  unfolding run run_all upsert_wire_operator_spend

  pub run-Evolves :
      (cfg : WireSettings) (c : WireCall) (db : WireDb) → Evolves cfg db (run cfg c db)
  run-Evolves cfg (create_quote_call id now input) db =
      create_wire_quote-Evolves cfg id now input db
  run-Evolves cfg (prepare_call others started preflight fresh input) db =
      prepare-Evolves cfg started preflight (run_all cfg others) fresh input db
        (run_all-Evolves cfg others db)
  run-Evolves cfg (funded_call now job_id tx seen) db =
      Touches-Evolves cfg db _ (reconcile_wire_job_funded_state-Touches cfg now job_id tx seen db)
  run-Evolves cfg (submitted_call now job_id seen) db =
      Touches-Evolves cfg db _ (reconcile_wire_job_submitted_state-Touches cfg now job_id seen db)
  run-Evolves cfg (terminal_call now job_id state seen) db =
      Touches-Evolves cfg db _
        (reconcile_wire_job_terminal_state-Touches cfg now job_id state seen db)
  run-Evolves cfg (artifacts_call others now job_id input) db =
      artifacts-Evolves cfg now (run_all cfg others) job_id input db (run_all-Evolves cfg others db)
  run-Evolves cfg (terminal_artifacts_call now job_id tx) db =
      Touches-Evolves cfg db _ (record_wire_job_terminal_artifacts-Touches now job_id tx db)
  run-Evolves cfg (spend_call spend) db = Touches-Evolves cfg db _ (Touches-apart db _ refl refl)
  run-Evolves cfg (review_call now id stage reason) db =
      Touches-Evolves cfg db _ (mark_wire_job_for_manual_review-Touches now id stage reason db)
  run-Evolves cfg (fail_call others now job_id stage reason block) db =
      fail-Evolves cfg now (run_all cfg others) job_id stage reason block db
        (run_all-Evolves cfg others db)
  run-Evolves cfg (checkpoint_call now id input) db =
      Touches-Evolves cfg db _ (update_artifact_recovery_checkpoint-Touches now id input db)
  run-Evolves cfg (deliver_call number_text now target_url secret response event) db =
      Touches-Evolves cfg db _
        (deliver_webhook_event-Touches number_text now target_url secret response event db)

  pub run_all-Evolves :
      (cfg : WireSettings) (cs : WireCalls) (db : WireDb) → Evolves cfg db (run_all cfg cs db)
  run_all-Evolves cfg no_calls db = Evolves-refl cfg db
  run_all-Evolves cfg (call_then c cs) db =
      Evolves-trans cfg db (run cfg c db) _ (run-Evolves cfg c db)
        (run_all-Evolves cfg cs (run cfg c db))

-- If prepareWireJobFromQuote has answered a job, then after any further calls, in any overlap, a request for the
-- same quote answers an error and writes nothing.
pub prepare_wire_job_from_quote-once :
    (cfg : WireSettings) (started : ℕ) (preflight : WireQuote → Result Bool)
    (between : WireDb → WireDb) (fresh : Fresh) (input : PrepareInput) (db : WireDb) {job : WireJob}
    {db' : WireDb}
    → prepare_wire_job_from_quote cfg started preflight between fresh input db ≡ (ok job, db')
    → (later : WireCalls) → (started' : ℕ) → (preflight' : WireQuote → Result Bool)
    → (others : WireCalls) → (fresh' : Fresh) → (input' : PrepareInput)
    → input'.quote_id ≡ input.quote_id
    → (x : Error) × ((prepare_wire_job_from_quote cfg started' preflight'
            (run_all cfg others)
            fresh'
            input'
            (run_all cfg later db')
          ≡ (err x, run_all cfg later db'))
        ⊎ (prepare_wire_job_from_quote cfg started' preflight'
              (run_all cfg others)
              fresh'
              input'
              (run_all cfg later db')
            ≡ (err x, run_all cfg others (run_all cfg later db'))))
prepare_wire_job_from_quote-once cfg started preflight between fresh input db {job} {db'} e later
      started' preflight' others fresh' input' same =
    let o =
      prepare_wire_job_from_quote-Opened cfg started preflight between fresh input db {job = job}
        {db' = db'} e in
    let now = run_all cfg later db' in
    prepare_wire_job_from_quote-consumed cfg started' preflight' (run_all cfg others) fresh' input'
      now
      (rw same (
        (run_all-Evolves cfg others now).consumed input.quote_id
          ((run_all-Evolves cfg later db').consumed input.quote_id o.consumed)))

-- Calls in any order and overlap keep it that every quote carries the fee of the settings and that every job is backed
-- by a consumed quote with its principal, its reserve, its provider and its evaluator.
pub run_all-IsSound :
    (cfg : WireSettings) (cs : WireCalls) (db : WireDb)
    → IsSound cfg db
    → IsSound cfg (run_all cfg cs db)
run_all-IsSound cfg cs db s = (run_all-Evolves cfg cs db).sound s

-- A job that is there is there after any calls, with the same identity, parties, amounts and specification.
pub run_all-SameTerms :
    (cfg : WireSettings) (cs : WireCalls) (db : WireDb) (id : Text) {job : WireJob}
    → find (has_job_id id) db.jobs ≡ some job
    → (job' : WireJob) × (find (has_job_id id) (run_all cfg cs db).jobs ≡ some job')
      × SameTerms job job'
run_all-SameTerms cfg cs db id {job} there = (run_all-Evolves cfg cs db).kept id job there

-- From a sound database, after any calls, if a job has a terminal settlement, it shares out exactly the principal that
-- its consumed quote names: to the provider and the protocol if the job is completed, and nothing otherwise.
pub run_all-IsShared :
    (cfg : WireSettings) (cs : WireCalls) (db : WireDb) (id : Text)
    (spends : List WireOperatorSpend) {job : WireJob} {t : TerminalSettlement}
    → IsSound cfg db
    → find (has_job_id id) (run_all cfg cs db).jobs ≡ some job
    → derive_terminal_settlement job.contract_state job.terminal_disposition job.principal_amount
        job.protocol_fee_amount job.network_reserve_amount spends
      ≡ some t
    → (quote : WireQuote) × (find (has_quote_id job.quote_id) (run_all cfg cs db).quotes
        ≡ some quote)
      × IsShared job.terminal_disposition quote.principal_amount quote.network_reserve_amount spends
          t
run_all-IsShared cfg cs db id spends {job} {t} s there settled =
    let b =
      All-find (Backed cfg (run_all cfg cs db).quotes) (has_job_id id) (run_all cfg cs db).jobs
        {a = job} (run_all-IsSound cfg cs db s).backed there in
    let shared =
      derive_terminal_settlement-IsShared cfg job.contract_state job.terminal_disposition
        job.principal_amount job.network_reserve_amount spends {t = t}
        (subst
          (λ fee.
            derive_terminal_settlement job.contract_state job.terminal_disposition
              job.principal_amount fee job.network_reserve_amount spends
            ≡ some t)
          b.fee settled) in
    (
      b.quote,
      b.is_there,
      subst (λ p. IsShared job.terminal_disposition p b.quote.network_reserve_amount spends t)
          b.principal
          (subst (λ r. IsShared job.terminal_disposition job.principal_amount r spends t) b.reserve
            shared),
    )
