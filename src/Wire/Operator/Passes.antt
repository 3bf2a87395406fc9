-- ===== src/Wire/Operator/Passes.antt =====
-- The operator over time: passes that each see the chain at a later moment, and a pass that sees enough.
use ghost_protocol.Prelude.{◌∙◌, ℕ, ◌≡◌, refl, true, none, some, List, [], ◌∷◌, Text, find}
use ghost_protocol.Store.{ok}
use ghost_protocol.Wire.Schema.{WireDb, WireJob, WireContractState, job_funded}
use ghost_protocol.Wire.Lifecycle.{Reach, here, Reach-trans}
use ghost_protocol.Wire.Operator.{ChainView, process_workflow_job, map_contract_status, receipt}
use ghost_protocol.Wire.Operator.Listed.{IsListed}
use ghost_protocol.Wire.Operator.Moves.{Follows}
use ghost_protocol.Wire.Operator.Follows.{process_workflow_job-Follows}
use ghost_protocol.Wire.Config.{WireSettings}
use ghost_protocol.Wire.Tables.{has_job_id}
use mathlib.Core.Path.{subst}

-- One pass over a job: its time, what the chain answers, and the status that the job has there.
pub record Pass : Type 0 where
  pub now : ℕ
  pub chain : ChainView
  pub onchain : WireContractState

-- The operator lists the job as it stands and processes it.
unfoldable pub run_pass : WireSettings → (ℕ → Text) → Text → Pass → WireDb → WireDb
unfolding process_workflow_job
run_pass cfg number_text job_id p db = elim (find (has_job_id job_id) db.jobs) [
  | none ↦ db
  | some job ↦ (process_workflow_job cfg number_text p.now p.chain job db).1
]

unfoldable pub run_passes : WireSettings → (ℕ → Text) → Text → List Pass → WireDb → WireDb
unfolding run_pass
run_passes cfg number_text job_id [] db = db
run_passes cfg number_text job_id (p ∷ ps) db =
    run_passes cfg number_text job_id ps (run_pass cfg number_text job_id p db)

-- What the chain's contract does, from a status on: each pass sees a status that the one before can have come to, reads it
-- without an error, and sees a successful fund transaction only of a job that is funded or further.
pub record Sees (before : WireContractState) (p : Pass) : Type 0 where
  pub status : ℕ
  pub answered : p.chain.onchain_status ≡ ok status
  pub mapped : map_contract_status status ≡ ok p.onchain
  pub later : Reach before p.onchain
  pub funded :
      (block confirmations : ℕ)
      → p.chain.fund_receipt ≡ receipt true block confirmations
      → Reach job_funded p.onchain

abbrev pub IsLife : WireContractState → List Pass → Type 0
IsLife before [] = Unit
IsLife before (p ∷ ps) = Sees before p × IsLife p.onchain ps

abbrev pub last_seen : WireContractState → List Pass → WireContractState
last_seen before [] = before
last_seen before (p ∷ ps) = last_seen p.onchain ps

run_pass-Follows :
    (cfg : WireSettings) (number_text : ℕ → Text) (p : Pass) (db : WireDb) (job : WireJob)
    (before : WireContractState)
    → IsListed db job
    → Reach job.contract_state before
    → Sees before p
    → Follows job p.onchain (run_pass cfg number_text job.job_id p db)
unfolding run_pass
run_pass-Follows cfg number_text p db job before l r s =
    rw (l.by_job_id, run_pass)
      (process_workflow_job-Follows cfg number_text p.now p.chain db job p.onchain l (record {
        status = s.status;
        answered = s.answered;
        mapped = s.mapped;
        reached = Reach-trans r s.later;
        funded = s.funded;
      }))

-- Over any passes of the operator, while the chain lives the life of a job, a listed job's recorded status moves only along
-- that life and is never further than the status that the chain has last shown.
pub run_passes-Follows :
    (cfg : WireSettings) (number_text : ℕ → Text) (ps : List Pass) (db : WireDb) (job : WireJob)
    (before : WireContractState)
    → IsListed db job
    → Reach job.contract_state before
    → IsLife before ps
    → Follows job (last_seen before ps) (run_passes cfg number_text job.job_id ps db)
unfolding run_passes
run_passes-Follows cfg number_text [] db job before l r life = record {
  job' = job;
  listed = l;
  same_id = refl;
  same_job_id = refl;
  moved = here;
  behind = r;
}
run_passes-Follows cfg number_text (p ∷ ps) db job before l r (s, life) =
    let one = run_pass-Follows cfg number_text p db job before l r s in
    let all =
      run_passes-Follows cfg number_text ps (run_pass cfg number_text job.job_id p db) one.job'
        p.onchain one.listed one.behind life in
    record {
      job' = all.job';
      listed =
          subst
            (λ id.
              IsListed (run_passes cfg number_text id ps (run_pass cfg number_text job.job_id p db))
                all.job')
            one.same_job_id all.listed;
      same_id = all.same_id ∙ one.same_id;
      same_job_id = all.same_job_id ∙ one.same_job_id;
      moved = Reach-trans one.moved all.moved;
      behind = all.behind;
    }
