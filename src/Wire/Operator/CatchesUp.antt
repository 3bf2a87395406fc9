-- ===== src/Wire/Operator/CatchesUp.antt =====
-- A pass that sees enough of the chain brings the job up to it.
use ghost_protocol.Prelude.{
  ℕ, ◌≡◌, ◌≤◌, refl, arith, ◌&&◌, Bool, true, false, some, Text, find, select, sym, ltb,
}
use ghost_protocol.Store.{ok, Result, on_ok, transaction, ◌>>=◌}
use ghost_protocol.Wire.Schema.{
  WireDb, WireJob, WireContractState, WireJobWorkflow, job_open, WireJobTransition, job_funded,
  WireWebhookOutbox, WireTerminalDisposition, job_submitted, state_of_disposition, state_eq,
  completed, rejected, lapsed, job_completed, job_rejected, job_expired, state_eq_refl,
}
use ghost_protocol.Wire.Operator.{
  ChainView, process_workflow_job, follow_event, ReconcileStatus, reconcile_direct_lifecycle,
  reconcile_lifecycle_event, confirmed_submitted, confirmed_funded, confirmed_terminal,
  map_contract_status, seen_of,
}
use ghost_protocol.Wire.Operator.Listed.{IsListed, move_found-ok}
use ghost_protocol.Wire.Reconcile.{
  reconcile_wire_job_terminal_state, reconcile_wire_job_submitted_state, reconcile_submitted_body,
  reconcile_terminal_body, submit_job, settle_workflow, submitted_event, end_job, move_job,
  terminal_event,
}
use ghost_protocol.Wire.Terms.{truthy}
use ghost_protocol.Wire.Tables.{has_job_id, require_job, spent_on}
use ghost_protocol.Wire.Config.{WireSettings, resolve_min_confirmations}
use ghost_protocol.Wire.Scan.{LifecycleEvent, get_latest_lifecycle_event}
use ghost_protocol.Wire.Outbox.{answer_with}
use mathlib.Core.Path.{subst}

-- The job is there with this status, and the answer says so.
pub record Reached (job : WireJob) (state : WireContractState) (status : ReconcileStatus)
    (answer : Result ReconcileStatus × WireDb) : Type 0 where
  pub job' : WireJob
  pub answered : answer.0 ≡ ok status
  pub there : find (has_job_id job.job_id) answer.1.jobs ≡ some job'
  pub contract_state : job'.contract_state ≡ state
  pub public_state : job'.public_state ≡ state

abbrev pub confirms : WireContractState → ReconcileStatus
confirms job_submitted = confirmed_submitted
confirms job_funded = confirmed_funded
confirms state = confirmed_terminal

-- The status after the last step of a job's life that the operator follows by events.
abbrev pub is_followed : WireContractState → Bool
is_followed job_open = false
is_followed job_funded = false
is_followed state = true

Reached-move :
    (f : WireJob → WireJob) (g : WireJobWorkflow → WireJobWorkflow)
    (transition : WireJob → WireJobTransition)
    (event : WireJob → WireJob → WireJob → WireWebhookOutbox) (db : WireDb) (job : WireJob)
    (state : WireContractState) (status : ReconcileStatus)
    → IsListed db job
    → (f job).id ≡ job.id
    → (f job).job_id ≡ job.job_id
    → ((w : WireJobWorkflow) → (g w).wire_job_id ≡ w.wire_job_id)
    → (f job).contract_state ≡ state
    → (f job).public_state ≡ state
    → Reached job state status (
      answer_with status
          (transaction
            (require_job job.job_id >>= λ there. move_job f g transition (event there) there)
            db).0,
      (transaction
          (require_job job.job_id >>= λ there. move_job f g transition (event there) there)
          db).1,
    )
Reached-move f g transition event db job state status l id job_id kept contract public =
    let (db', listed, e) = move_found-ok f g transition event db job l id job_id kept in
    subst (λ x. Reached job state status (answer_with status x.0, x.1)) (sym e)
      (record {
        job' = f job;
        answered = refl;
        there =
            subst (λ key. find (has_job_id key) db'.jobs ≡ some (f job)) job_id listed.by_job_id;
        contract_state = contract;
        public_state = public;
      })

ended-Reached :
    (cfg : WireSettings) (now : ℕ) (d : WireTerminalDisposition) (event : LifecycleEvent)
    (db : WireDb) (job : WireJob)
    → IsListed db job
    → Reached job (state_of_disposition d) confirmed_terminal (
      answer_with confirmed_terminal
          (reconcile_wire_job_terminal_state cfg now job.job_id d (seen_of now event) db).0,
      (reconcile_wire_job_terminal_state cfg now job.job_id d (seen_of now event) db).1,
    )
unfolding reconcile_wire_job_terminal_state reconcile_terminal_body
ended-Reached cfg now d event db job l =
    Reached-move (end_job now d (some event.tx_hash)) (settle_workflow now) _
      (λ there.
        terminal_event cfg now d (some event.tx_hash) (select (spent_on there.id) db.spends))
      db job (state_of_disposition d) confirmed_terminal l refl refl (λ w. refl) refl refl

follow_event-Reached :
    (cfg : WireSettings) (now : ℕ) (state : WireContractState) (event : LifecycleEvent)
    (db : WireDb) (job : WireJob)
    → is_followed state ≡ true
    → IsListed db job
    → Reached job state (confirms state) (follow_event cfg now state event job db)
unfolding follow_event reconcile_wire_job_submitted_state reconcile_submitted_body
follow_event-Reached cfg now job_open event db job followed l = absurd (ground arith)
follow_event-Reached cfg now job_funded event db job followed l = absurd (ground arith)
follow_event-Reached cfg now job_submitted event db job followed l =
    Reached-move (submit_job now) (settle_workflow now) _
      (λ _. submitted_event cfg now (some event.tx_hash)) db job job_submitted confirmed_submitted l
      refl refl (λ w. refl) refl refl
follow_event-Reached cfg now job_completed event db job followed l =
    ended-Reached cfg now completed event db job l
follow_event-Reached cfg now job_rejected event db job followed l =
    ended-Reached cfg now rejected event db job l
follow_event-Reached cfg now job_expired event db job followed l =
    ended-Reached cfg now lapsed event db job l

followed-past :
    (s : WireContractState)
    → is_followed s ≡ true
    → (state_eq s job_open ≡ false) × (state_eq s job_funded ≡ false)
followed-past job_open e = cc
followed-past job_funded e = cc
followed-past job_submitted e = (refl, refl)
followed-past job_completed e = (refl, refl)
followed-past job_rejected e = (refl, refl)
followed-past job_expired e = (refl, refl)

-- The transactions of the job's creation and funding are recorded.
abbrev pub has_artifacts : WireJob → Bool
has_artifacts job =
    truthy job.create_tx_hash
    && truthy job.fund_tx_hash
    && truthy job.contract_address
    && truthy job.contract_job_id

-- If a listed job's artifacts are recorded and it is past OPEN, and the chain shows it as submitted or ended with a last
-- lifecycle event of that kind that has the confirmations the chain's network asks for, then
-- processGhostWireWorkflowJob answers the confirmation and leaves the job with the chain's status.
pub process_workflow_job-Reached :
    (cfg : WireSettings) (number_text : ℕ → Text) (now : ℕ) (chain : ChainView) (db : WireDb)
    (job : WireJob) (onchain : WireContractState) {status : ℕ} {event : LifecycleEvent}
    → IsListed db job
    → has_artifacts job ≡ true
    → state_eq job.contract_state job_open ≡ false
    → is_followed onchain ≡ true
    → chain.onchain_status ≡ ok status
    → map_contract_status status ≡ ok onchain
    → get_latest_lifecycle_event chain.latest_block chain.logs ≡ some (some event)
    → event.state ≡ onchain
    → resolve_min_confirmations cfg job.chain_id ≤ event.confirmations
    → Reached job onchain (confirms onchain) (process_workflow_job cfg number_text now chain job db)
unfolding process_workflow_job reconcile_direct_lifecycle reconcile_lifecycle_event
process_workflow_job-Reached cfg number_text now chain db job onchain {status} {event} l artifacts
      past followed answered mapped latest same enough =
    let (not_open, not_funded) = followed-past onchain followed in
    let matched : state_eq event.state onchain ≡ true =
      subst (λ s. state_eq event.state s ≡ true) same (state_eq_refl event.state) in
    let confirmed : ltb event.confirmations (resolve_min_confirmations cfg job.chain_id) ≡ false =
      ground arith in
    let contract : (truthy job.contract_address && truthy job.contract_job_id) ≡ true =
      ground (arith, artifacts) in
    rw
      (
        artifacts, past, contract, answered, mapped, not_open, not_funded, latest, matched,
        confirmed, process_workflow_job, reconcile_direct_lifecycle, reconcile_lifecycle_event,
        on_ok,
      )
      (follow_event-Reached cfg now onchain event db job followed l)
