-- ===== src/Wire/Operator.antt =====
-- lib/ghostwire-operator.ts, processGhostWireWorkflowJob: one job of the operator's list is brought up to what the
-- chain says. What the chain answers is an argument.
pub mod Listed
pub mod Moves
pub mod Follows
pub mod Passes
pub mod CatchesUp
use ghost_protocol.Prelude.{
  ℕ, ◌+◌, ◌-◌, Bool, true, false, ◌&&◌, ◌||◌, not, Option, none, some, List, [], ◌∷◌, ◌++◌, Text,
  String, codes, trim, to_lower_case, length, leb, ltb, ◌==◌, every, if◌then◌else◌,
}
use ghost_protocol.Store.{Result, ok, err, on_ok, transaction, failure}
use ghost_protocol.Wire.Schema.{
  WireDb, WireJob, WireJobWorkflow, WireContractState, WireWorkflowStatus, in_progress, job_open,
  job_funded, state_eq, job_submitted, WireTerminalDisposition, job_completed, job_rejected,
  job_expired, completed, rejected, lapsed,
}
use ghost_protocol.Wire.Config.{WireSettings, resolve_min_confirmations, is_digit}
use ghost_protocol.Wire.Tables.{of_job, update_workflow}
use ghost_protocol.Wire.Review.{
  fail_wire_job_artifact_validation, mark_wire_job_for_manual_review, reconcile_stage, fund_stage,
}
use ghost_protocol.Wire.Scan.{Log, LifecycleEvent, get_latest_lifecycle_event}
use ghost_protocol.Wire.Terms.{truthy}
use ghost_protocol.Wire.Reconcile.{
  reconcile_wire_job_submitted_state, reconcile_wire_job_terminal_state,
  reconcile_wire_job_funded_state, Confirmation,
}
use ghost_protocol.Wire.Outbox.{answer_with}

-- `/^0x[a-f0-9]{64}$/`.
abbrev is_hash : Text → Bool
is_hash (zero_digit ∷ x ∷ digits) =
    zero_digit == b'0' && x == b'x' && length digits == 64 && every is_hex digits
  where
    is_hex : ℕ → Bool
    is_hex c = is_digit c || (leb b'a' c && leb c b'f')
is_hash text = false

unfoldable pub normalize_hash : Option Text → Option Text
normalize_hash none = none
normalize_hash (some value) =
    let trimmed = to_lower_case (trim value) in if is_hash trimmed then some trimmed else none

-- getReceiptObservation: a receipt with its success, block and confirmations, or the message of an error.
pub data Observation : Type 0 where
  receipt : Bool → ℕ → ℕ → Observation
  no_receipt : Text → Observation

-- What the chain answers about one job while it is processed: the observation of its fund transaction, the
-- status number of `getJob` (its expiry goes into a message only), the latest block and the job's logs. The
-- read of the status may throw.
pub record ChainView : Type 0 where
  pub fund_receipt : Observation
  pub onchain_status : Result ℕ
  pub latest_block : ℕ
  pub logs : List Log

unfoldable pub map_contract_status : ℕ → Result WireContractState
map_contract_status n =
    if n == 0
    then ok job_open
    else if n == 1
    then ok job_funded
    else if n == 2
    then ok job_submitted
    else if n == 3
    then ok job_completed
    else if n == 4
    then ok job_rejected
    else if n == 5
    then ok job_expired
    else err (failure "Unsupported GhostWire contract status")

-- ReconcileResultStatus, less the answers of the recovery of artifacts and of the tick.
pub data ReconcileStatus : Type 0 where
  already_reconciled waiting_artifacts waiting_confirmation : ReconcileStatus
  confirmed_funded confirmed_submitted confirmed_terminal : ReconcileStatus
  needs_review : ReconcileStatus

abbrev pub operator_retry_delay_ms : ℕ
operator_retry_delay_ms = 300_000

-- updateGhostWireWorkflowStage for the stage `confirmation`, which the callers set to IN_PROGRESS.
abbrev pub wait_workflow : ℕ → Text → ℕ → WireJobWorkflow → WireJobWorkflow
wait_workflow now message retries workflow = record workflow {
  confirmation_status = in_progress;
  last_error = some message;
  next_retry_at = some (now + operator_retry_delay_ms);
  last_attempt_at = some now;
  retry_count = workflow.retry_count + retries;
  manual_review_required = false;
  manual_review_reason = none;
}

unfoldable pub wait_confirmation : ℕ → Text → ℕ → WireJob → WireDb → Result ReconcileStatus × WireDb
unfolding update_workflow
wait_confirmation now message retries job db =
    let (written, db') =
      transaction (update_workflow (of_job job.id) (wait_workflow now message retries)) db in
    (answer_with waiting_confirmation written, db')

unfoldable pub ask_review : ℕ → Text → WireJob → WireDb → Result ReconcileStatus × WireDb
unfolding mark_wire_job_for_manual_review
ask_review now reason job db =
    let (written, db') = mark_wire_job_for_manual_review now job.id reconcile_stage reason db in
    (answer_with needs_review written, db')

-- `${n}/${m} confirmations.`
abbrev progress : (ℕ → Text) → ℕ → ℕ → Text
progress number_text n m = number_text n ++ codes "/" ++ number_text m ++ codes " confirmations."

-- What follows once the fund transaction has been looked up. `number_text` is `String(n)`; `now` is the time of the
-- call.
unfoldable pub follow_receipt :
    WireSettings
    → (ℕ → Text)
    → ℕ
    → Text
    → Observation
    → WireJob
    → WireDb
    → Result ReconcileStatus × WireDb
unfolding wait_confirmation fail_wire_job_artifact_validation reconcile_wire_job_funded_state
    resolve_min_confirmations
follow_receipt cfg number_text now tx (no_receipt message) job db =
    wait_confirmation now message 1 job db
follow_receipt cfg number_text now tx (receipt success block confirmations) job db =
    let least = resolve_min_confirmations cfg job.chain_id in
    let reverted =
      fail_wire_job_artifact_validation now (λ d. d) job.job_id fund_stage
        (codes "Fund transaction reverted on-chain after artifact recording.") (some (some block))
        db in
    let funded =
      reconcile_wire_job_funded_state cfg now job.job_id tx
        (record {
          tx_hash = some tx;
          confirmed_at = now;
          block_number = block;
          confirmations = confirmations;
          log_index = none;
        })
        db in
    if not success
    then (answer_with needs_review reverted.0, reverted.1)
    else if ltb confirmations least
    then wait_confirmation now
        (codes "Fund transaction has " ++ progress number_text confirmations least) 0 job db
    else (answer_with confirmed_funded funded.0, funded.1)

unfoldable pub reconcile_funded_confirmation :
    WireSettings → (ℕ → Text) → ℕ → ChainView → WireJob → WireDb → Result ReconcileStatus × WireDb
unfolding normalize_hash follow_receipt
reconcile_funded_confirmation cfg number_text now chain job db =
    elim (normalize_hash job.fund_tx_hash) [
      | none ↦ (ok waiting_artifacts, db)
      | some tx ↦
          if not (truthy job.create_tx_hash)
          then (ok waiting_artifacts, db)
          else follow_receipt cfg number_text now tx chain.fund_receipt job db
    ]

abbrev state_text : WireContractState → Text
state_text job_open = codes "OPEN"
state_text job_funded = codes "FUNDED"
state_text job_submitted = codes "SUBMITTED"
state_text job_completed = codes "COMPLETED"
state_text job_rejected = codes "REJECTED"
state_text job_expired = codes "EXPIRED"

abbrev pub seen_of : ℕ → LifecycleEvent → Confirmation
seen_of now event = record {
  tx_hash = some event.tx_hash;
  confirmed_at = now;
  block_number = event.block_number;
  confirmations = event.confirmations;
  log_index = some event.log_index;
}

-- The last step of reconcileWireJobDirectLifecycle, for an event that is confirmed.
unfoldable pub follow_event :
    WireSettings
    → ℕ
    → WireContractState
    → LifecycleEvent
    → WireJob
    → WireDb
    → Result ReconcileStatus × WireDb
unfolding reconcile_wire_job_submitted_state reconcile_wire_job_terminal_state
follow_event cfg now state event job db =
    let submitted = reconcile_wire_job_submitted_state cfg now job.job_id (seen_of now event) db in
    let ended = λ (disposition : WireTerminalDisposition).
      reconcile_wire_job_terminal_state cfg now job.job_id disposition (seen_of now event) db in
    elim state [
      | job_submitted ↦ (answer_with confirmed_submitted submitted.0, submitted.1)
      | job_completed ↦ (answer_with confirmed_terminal (ended completed).0, (ended completed).1)
      | job_rejected ↦ (answer_with confirmed_terminal (ended rejected).0, (ended rejected).1)
      | job_expired ↦ (answer_with confirmed_terminal (ended lapsed).0, (ended lapsed).1)
      | job_open ↦ (ok already_reconciled, db)
      | job_funded ↦ (ok already_reconciled, db)
    ]

-- What follows once the contract's status is known: SUBMITTED or an end.
unfoldable pub reconcile_lifecycle_event :
    WireSettings
    → (ℕ → Text)
    → ℕ
    → WireContractState
    → Option LifecycleEvent
    → WireJob
    → WireDb
    → Result ReconcileStatus × WireDb
unfolding ask_review wait_confirmation follow_event resolve_min_confirmations
reconcile_lifecycle_event cfg number_text now state latest job db =
    let least = resolve_min_confirmations cfg job.chain_id in
    let unresolved =
      codes "On-chain GhostWire job is "
      ++ state_text state
      ++ codes " but the matching lifecycle event could not be resolved from logs." in
    elim latest [
      | none ↦ ask_review now unresolved job db
      | some event ↦
          if not (state_eq event.state state)
          then ask_review now unresolved job db
          else if ltb event.confirmations least
          then wait_confirmation now
              (state_text event.state
                ++ codes " transaction has "
                ++ progress number_text event.confirmations least)
              0 job db
          else follow_event cfg now state event job db
    ]

-- The scan's fuel suffices, so the outer option is never none.
abbrev pub scanned : Option (Option LifecycleEvent) → Option LifecycleEvent
scanned none = none
scanned (some answer) = answer

unfoldable pub reconcile_direct_lifecycle :
    WireSettings → (ℕ → Text) → ℕ → ChainView → WireJob → WireDb → Result ReconcileStatus × WireDb
unfolding map_contract_status ask_review reconcile_lifecycle_event get_latest_lifecycle_event
reconcile_direct_lifecycle cfg number_text now chain job db =
    if not (truthy job.contract_address && truthy job.contract_job_id)
    then (ok waiting_artifacts, db)
    else on_ok chain.onchain_status db λ status. on_ok (map_contract_status status) db λ state.
      if state_eq state job_open
      then ask_review now
          (codes
            "On-chain GhostWire job is still OPEN even though direct funding artifacts are already recorded.")
          job db
      else if state_eq state job_funded
      then (ok already_reconciled, db)
      else reconcile_lifecycle_event cfg number_text now state
          (scanned (get_latest_lifecycle_event chain.latest_block chain.logs)) job db

-- `job` is the row as it was listed.
unfoldable pub process_workflow_job :
    WireSettings → (ℕ → Text) → ℕ → ChainView → WireJob → WireDb → Result ReconcileStatus × WireDb
unfolding reconcile_funded_confirmation reconcile_direct_lifecycle
process_workflow_job cfg number_text now chain job db =
    if not (
      truthy job.create_tx_hash
      && truthy job.fund_tx_hash
      && truthy job.contract_address
      && truthy job.contract_job_id)
    then (ok waiting_artifacts, db)
    else if state_eq job.contract_state job_open
    then reconcile_funded_confirmation cfg number_text now chain job db
    else reconcile_direct_lifecycle cfg number_text now chain job db
