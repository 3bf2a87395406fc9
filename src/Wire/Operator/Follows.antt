-- ===== src/Wire/Operator/Follows.antt =====
-- Where a job stands after the operator has processed it, against where it stands on the chain.
use ghost_protocol.Prelude.{
  ◌&&◌, ℕ, ◌≡◌, refl, true, false, not, Option, none, some, Text, update, Bool-cases, Option-cases,
  inl, inr, if-keeps, sym, select, ltb,
}
use ghost_protocol.Store.{Result, on_ok, transaction, ◌>>=◌}
use ghost_protocol.Wire.Schema.{
  WireDb, WireJob, WireContractState, state_eq_sound, WireJobWorkflow, job_funded,
  WireTerminalDisposition, state_of_disposition, completed, job_open, job_submitted, job_completed,
  job_rejected, job_expired, rejected, lapsed, state_eq, manual_review,
}
use ghost_protocol.Wire.Lifecycle.{Reach, here, next, to_funded}
use ghost_protocol.Wire.Operator.{
  ChainView, process_workflow_job, follow_event, receipt, seen_of, wait_confirmation, ask_review,
  reconcile_direct_lifecycle, reconcile_lifecycle_event, wait_workflow, scanned, ReconcileStatus,
  reconcile_funded_confirmation, follow_receipt, normalize_hash, Observation, no_receipt,
}
use ghost_protocol.Wire.Operator.Listed.{
  IsListed, IsListed-update, update_workflow-ok, update_job-ok,
}
use ghost_protocol.Wire.Reconcile.{
  reconcile_wire_job_submitted_state, reconcile_wire_job_terminal_state, reconcile_submitted_body,
  reconcile_terminal_body, submit_job, settle_workflow, submitted_event, end_job, terminal_event,
  reconcile_wire_job_funded_state, reconcile_funded_body, fund_job, settle_funded_workflow,
  funded_event,
}
use ghost_protocol.Wire.Tables.{of_job, spent_on, has_id}
use ghost_protocol.Wire.Config.{WireSettings, resolve_min_confirmations}
use ghost_protocol.Wire.Scan.{LifecycleEvent, get_latest_lifecycle_event}
use mathlib.Core.Path.{subst}
use ghost_protocol.Wire.Review.{
  mark_wire_job_for_manual_review, review_workflow, reconcile_stage,
  fail_wire_job_artifact_validation, fail_validation_body, Stage, fail_workflow, fund_stage,
}
use ghost_protocol.Wire.Terms.{truthy}
use ghost_protocol.Wire.Operator.Moves.{
  IsAhead, Follows, Follows-stay, Follows-workflow, Follows-move,
}

ended-Follows :
    (cfg : WireSettings) (now : ℕ) (d : WireTerminalDisposition) (event : LifecycleEvent)
    (db : WireDb) (job : WireJob)
    → IsListed db job
    → Reach job.contract_state (state_of_disposition d)
    → Follows job
        (state_of_disposition d)
        (reconcile_wire_job_terminal_state cfg now job.job_id d (seen_of now event) db).1
unfolding reconcile_wire_job_terminal_state reconcile_terminal_body
ended-Follows cfg now d event db job l r =
    Follows-move (end_job now d (some event.tx_hash)) (settle_workflow now) _
      (λ there.
        terminal_event cfg now d (some event.tx_hash) (select (spent_on there.id) db.spends))
      db job (state_of_disposition d) refl refl (λ w. refl) l r here

follow_event-Follows :
    (cfg : WireSettings) (now : ℕ) (state : WireContractState) (event : LifecycleEvent)
    (db : WireDb) (job : WireJob)
    → IsListed db job
    → Reach job.contract_state state
    → Follows job state (follow_event cfg now state event job db).1
unfolding follow_event reconcile_wire_job_submitted_state reconcile_submitted_body
follow_event-Follows cfg now job_open event db job l r = Follows-stay db job job_open l r
follow_event-Follows cfg now job_funded event db job l r = Follows-stay db job job_funded l r
follow_event-Follows cfg now job_submitted event db job l r =
    Follows-move (submit_job now) (settle_workflow now) _
      (λ _. submitted_event cfg now (some event.tx_hash)) db job job_submitted refl refl (λ w. refl)
      l r here
follow_event-Follows cfg now job_completed event db job l r =
    ended-Follows cfg now completed event db job l r
follow_event-Follows cfg now job_rejected event db job l r =
    ended-Follows cfg now rejected event db job l r
follow_event-Follows cfg now job_expired event db job l r =
    ended-Follows cfg now lapsed event db job l r

wait_confirmation-Follows :
    (now : ℕ) (message : Text) (retries : ℕ) (db : WireDb) (job : WireJob)
    (onchain : WireContractState)
    → IsListed db job
    → Reach job.contract_state onchain
    → Follows job onchain (wait_confirmation now message retries job db).1
unfolding wait_confirmation
wait_confirmation-Follows now message retries db job onchain l r =
    Follows-workflow (wait_workflow now message retries) db job onchain (λ w. refl) l r

ask_review-Follows :
    (now : ℕ) (reason : Text) (db : WireDb) (job : WireJob) (onchain : WireContractState)
    → IsListed db job
    → Reach job.contract_state onchain
    → Follows job onchain (ask_review now reason job db).1
unfolding ask_review mark_wire_job_for_manual_review
ask_review-Follows now reason db job onchain l r =
    Follows-workflow (review_workflow now reconcile_stage reason) db job onchain (λ w. refl) l r

reconcile_lifecycle_event-Follows :
    (cfg : WireSettings) (number_text : ℕ → Text) (now : ℕ) (state : WireContractState)
    (latest : Option LifecycleEvent) (db : WireDb) (job : WireJob)
    → IsListed db job
    → Reach job.contract_state state
    → Follows job state (reconcile_lifecycle_event cfg number_text now state latest job db).1
unfolding reconcile_lifecycle_event
reconcile_lifecycle_event-Follows cfg number_text now state none db job l r =
    ask_review-Follows now _ db job state l r
reconcile_lifecycle_event-Follows cfg number_text now state (some event) db job l r =
    if-keeps (λ (answer : Result ReconcileStatus × WireDb). Follows job state answer.1)
      (not (state_eq event.state state)) (ask_review-Follows now _ db job state l r)
      (if-keeps (λ (answer : Result ReconcileStatus × WireDb). Follows job state answer.1)
        (ltb event.confirmations (resolve_min_confirmations cfg job.chain_id))
        (wait_confirmation-Follows now _ 0 db job state l r)
        (follow_event-Follows cfg now state event db job l r))

reconcile_direct_lifecycle-Follows :
    (cfg : WireSettings) (number_text : ℕ → Text) (now : ℕ) (chain : ChainView) (db : WireDb)
    (job : WireJob) (onchain : WireContractState)
    → IsListed db job
    → IsAhead chain onchain job
    → Follows job onchain (reconcile_direct_lifecycle cfg number_text now chain job db).1
unfolding reconcile_direct_lifecycle
reconcile_direct_lifecycle-Follows cfg number_text now chain db job onchain l a =
    let P : Result ReconcileStatus × WireDb → Type 0 = λ answer. Follows job onchain answer.1 in
    let stay : Follows job onchain db = Follows-stay db job onchain l a.reached in
    rw (a.answered, a.mapped, reconcile_direct_lifecycle, on_ok)
      (if-keeps P (not (truthy job.contract_address && truthy job.contract_job_id)) stay (
        if-keeps P (state_eq onchain job_open) (ask_review-Follows now _ db job onchain l a.reached)
          (if-keeps P (state_eq onchain job_funded) stay (
            reconcile_lifecycle_event-Follows cfg number_text now onchain
              (scanned (get_latest_lifecycle_event chain.latest_block chain.logs)) db job l
              a.reached))))

fail_validation-Follows :
    (now : ℕ) (stage : Stage) (reason : Text) (block : Option (Option ℕ)) (db : WireDb)
    (job : WireJob) (onchain : WireContractState)
    → IsListed db job
    → Reach job.contract_state onchain
    → Follows job onchain
        (fail_wire_job_artifact_validation now (λ d. d) job.job_id stage reason block db).1
unfolding fail_wire_job_artifact_validation fail_validation_body
fail_validation-Follows now stage reason block db job onchain l r =
    let f : WireJob → WireJob = λ row. record row {
      artifact_validation_state = manual_review;
      artifact_validation_error = some reason;
      updated_at = now;
    } in
    let g : WireJobWorkflow → WireJobWorkflow = fail_workflow now stage reason block in
    let db₁ : WireDb = record db { jobs = update (has_id job.id) f db.jobs } in
    let db₂ : WireDb = record db₁ { workflows = update (of_job job.id) g db.workflows } in
    rw
      (
        l.by_job_id,
        update_job-ok f db job l.by_id,
        update_workflow-ok g db₁ job.id l.has_workflow,
        fail_wire_job_artifact_validation,
        fail_validation_body,
        transaction,
        ◌>>=◌,
      )
      (record {
        job' = f job;
        listed = IsListed-update f g db db₂ job l refl refl (λ w. refl) refl refl;
        same_id = refl;
        same_job_id = refl;
        moved = here;
        behind = r;
      })

follow_receipt-Follows :
    (cfg : WireSettings) (number_text : ℕ → Text) (now : ℕ) (tx : Text) (seen : Observation)
    (db : WireDb) (job : WireJob) (onchain : WireContractState)
    → job.contract_state ≡ job_open
    → IsListed db job
    → Reach job.contract_state onchain
    → ((block confirmations : ℕ)
        → seen ≡ receipt true block confirmations
        → Reach job_funded onchain)
    → Follows job onchain (follow_receipt cfg number_text now tx seen job db).1
unfolding follow_receipt reconcile_wire_job_funded_state reconcile_funded_body
follow_receipt-Follows cfg number_text now tx (no_receipt message) db job onchain is_open l r
      funded =
    wait_confirmation-Follows now message 1 db job onchain l r
follow_receipt-Follows cfg number_text now tx (receipt false block n) db job onchain is_open l r
      funded =
    fail_validation-Follows now fund_stage _ (some (some block)) db job onchain l r
follow_receipt-Follows cfg number_text now tx (receipt true block n) db job onchain is_open l r
      funded =
    if-keeps (λ (answer : Result ReconcileStatus × WireDb). Follows job onchain answer.1)
      (ltb n (resolve_min_confirmations cfg job.chain_id))
      (wait_confirmation-Follows now _ 0 db job onchain l r)
      (Follows-move (fund_job now) (settle_funded_workflow now) _ (λ _. funded_event cfg now tx) db
        job onchain refl refl (λ w. refl) l
        (subst (λ s. Reach s job_funded) (sym is_open) (next here to_funded)) (funded block n refl))

reconcile_funded_confirmation-Follows :
    (cfg : WireSettings) (number_text : ℕ → Text) (now : ℕ) (chain : ChainView) (db : WireDb)
    (job : WireJob) (onchain : WireContractState)
    → job.contract_state ≡ job_open
    → IsListed db job
    → IsAhead chain onchain job
    → Follows job onchain (reconcile_funded_confirmation cfg number_text now chain job db).1
unfolding reconcile_funded_confirmation
reconcile_funded_confirmation-Follows cfg number_text now chain db job onchain is_open l a =
    elim (Option-cases (normalize_hash job.fund_tx_hash)) [
      | inl absent ↦
          rw (absent, reconcile_funded_confirmation) (Follows-stay db job onchain l a.reached)
      | inr (tx, hash) ↦
          rw (hash, reconcile_funded_confirmation)
            (if-keeps (λ (answer : Result ReconcileStatus × WireDb). Follows job onchain answer.1)
              (not (truthy job.create_tx_hash)) (Follows-stay db job onchain l a.reached)
              (follow_receipt-Follows cfg number_text now tx chain.fund_receipt db job onchain
                is_open l a.reached a.funded))
    ]

-- If the chain's status of a listed job is one that the recorded status can have come to, and a successful fund transaction
-- means that the job is funded there, then after processGhostWireWorkflowJob the job is there still, and its recorded
-- status has moved along the contract's life of a job, or stayed, and is no further than the chain's.
pub process_workflow_job-Follows :
    (cfg : WireSettings) (number_text : ℕ → Text) (now : ℕ) (chain : ChainView) (db : WireDb)
    (job : WireJob) (onchain : WireContractState)
    → IsListed db job
    → IsAhead chain onchain job
    → Follows job onchain (process_workflow_job cfg number_text now chain job db).1
unfolding process_workflow_job
process_workflow_job-Follows cfg number_text now chain db job onchain l a =
    let P : Result ReconcileStatus × WireDb → Type 0 = λ answer. Follows job onchain answer.1 in
    if-keeps P
      (not (
        truthy job.create_tx_hash
        && truthy job.fund_tx_hash
        && truthy job.contract_address
        && truthy job.contract_job_id))
      (Follows-stay db job onchain l a.reached)
      (elim (Bool-cases (state_eq job.contract_state job_open)) [
        | inl is_open ↦ rw is_open (
            reconcile_funded_confirmation-Follows cfg number_text now chain db job onchain
              (state_eq_sound job.contract_state job_open is_open) l a)
        | inr later ↦
            rw later
              (reconcile_direct_lifecycle-Follows cfg number_text now chain db job onchain l a)
      ])
