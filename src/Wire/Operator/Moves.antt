-- ===== src/Wire/Operator/Moves.antt =====
-- A job that the operator moves, or leaves where it is, against where it stands on the chain.
use ghost_protocol.Prelude.{ℕ, ◌≡◌, refl, true, sym, find-update_self, text_eq}
use ghost_protocol.Store.{ok, transaction, ◌>>=◌}
use ghost_protocol.Wire.Schema.{
  WireDb, WireJob, WireContractState, WireJobWorkflow, WireJobTransition, job_funded,
  WireWebhookOutbox,
}
use ghost_protocol.Wire.Lifecycle.{Reach, here}
use ghost_protocol.Wire.Operator.{ChainView, map_contract_status, receipt}
use ghost_protocol.Wire.Operator.Listed.{IsListed, move_found-ok, update_workflow-ok}
use ghost_protocol.Wire.Reconcile.{move_job}
use ghost_protocol.Wire.Tables.{update_workflow, of_job, require_job}
use mathlib.Core.Path.{subst}

-- The chain tells the state `onchain`, which the job's recorded state can have come to; and a successful fund
-- transaction means that the job is funded there, or further.
pub record IsAhead (chain : ChainView) (onchain : WireContractState) (job : WireJob) : Type 0 where
  pub status : ℕ
  pub answered : chain.onchain_status ≡ ok status
  pub mapped : map_contract_status status ≡ ok onchain
  pub reached : Reach job.contract_state onchain
  pub funded :
      (block confirmations : ℕ)
      → chain.fund_receipt ≡ receipt true block confirmations
      → Reach job_funded onchain

-- The job is listed still, with a state on the way from the recorded one to the chain's.
pub record Follows (job : WireJob) (onchain : WireContractState) (db' : WireDb) : Type 0 where
  pub job' : WireJob
  pub listed : IsListed db' job'
  pub same_id : job'.id ≡ job.id
  pub same_job_id : job'.job_id ≡ job.job_id
  pub moved : Reach job.contract_state job'.contract_state
  pub behind : Reach job'.contract_state onchain

-- A step that leaves the jobs and changes one workflow, or writes nothing.
pub Follows-stay :
    (db : WireDb) (job : WireJob) (onchain : WireContractState)
    → IsListed db job
    → Reach job.contract_state onchain
    → Follows job onchain db
Follows-stay db job onchain l r = record {
  job' = job;
  listed = l;
  same_id = refl;
  same_job_id = refl;
  moved = here;
  behind = r;
}

-- One update of the job's workflow.
pub Follows-workflow :
    (g : WireJobWorkflow → WireJobWorkflow) (db : WireDb) (job : WireJob)
    (onchain : WireContractState)
    → ((w : WireJobWorkflow) → (g w).wire_job_id ≡ w.wire_job_id)
    → IsListed db job
    → Reach job.contract_state onchain
    → Follows job onchain (transaction (update_workflow (of_job job.id) g) db).1
Follows-workflow g db job onchain kept l r =
    rw (update_workflow-ok g db job.id l.has_workflow, transaction)
      (Follows-stay _ job onchain
        (record {
          workflow = g l.workflow;
          by_id = l.by_id;
          by_job_id = l.by_job_id;
          has_workflow =
              find-update_self (of_job job.id) g db.workflows
                (λ w h. subst (λ key. text_eq key job.id ≡ true) (sym (kept w)) h) l.has_workflow;
        })
        r)

-- The transaction that moves the job.
pub Follows-move :
    (f : WireJob → WireJob) (g : WireJobWorkflow → WireJobWorkflow)
    (transition : WireJob → WireJobTransition)
    (event : WireJob → WireJob → WireJob → WireWebhookOutbox) (db : WireDb) (job : WireJob)
    (onchain : WireContractState)
    → (f job).id ≡ job.id
    → (f job).job_id ≡ job.job_id
    → ((w : WireJobWorkflow) → (g w).wire_job_id ≡ w.wire_job_id)
    → IsListed db job
    → Reach job.contract_state (f job).contract_state
    → Reach (f job).contract_state onchain
    → Follows job onchain
        (transaction
          (require_job job.job_id >>= λ there. move_job f g transition (event there) there)
          db).1
Follows-move f g transition event db job onchain id job_id kept l moved behind =
    let (db', listed, e) = move_found-ok f g transition event db job l id job_id kept in
    subst (λ answer. Follows job onchain answer.1) (sym e)
      (record {
        job' = f job;
        listed = listed;
        same_id = id;
        same_job_id = job_id;
        moved = moved;
        behind = behind;
      })
