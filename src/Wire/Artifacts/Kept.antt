-- ===== src/Wire/Artifacts/Kept.antt =====
-- What a job's recorded artifacts are after a further record.
use ghost_protocol.Prelude.{
  ℕ, ◌≡◌, refl, arith, Bool, true, false, Option, none, some, Text, to_lower_case, text_eq_iff,
  find, update,
}
use mathlib.Core.Path.{ap, sym, subst}
use ghost_protocol.Wire.Artifacts.{
  Artifacts, conflicts, conflicts_lower, no_conflict, record_wire_job_execution_artifacts,
  record_job, record_artifacts_body, record_workflow,
}
use ghost_protocol.Wire.Terms.{truthy}
use ghost_protocol.Wire.Prepare.{or_option}
use ghost_protocol.Wire.Schema.{WireJob, WireJobWorkflow, WireDb}
use ghost_protocol.Store.{◌>>=◌, ok, transaction-eq-ok, >>=-eq-ok}
use ghost_protocol.Wire.Tables.{has_job_id, has_id, update_workflow, of_job, update_job}
use ghost_protocol.Wire.Operator.Listed.{IsListed, IsListed-update}
use ghost_protocol.Wire.Tables.Writes.{update_workflow-writes, update_job-writes}

-- `undefined`, or a text that is not empty.
abbrev pub is_proper : Option Text → Bool
is_proper none = true
is_proper (some s) = truthy (some s)

pub record IsProper (input : Artifacts) : Type 0 where
  pub contract_address : is_proper input.contract_address ≡ true
  pub contract_job_id : is_proper input.contract_job_id ≡ true
  pub create_tx_hash : is_proper input.create_tx_hash ≡ true
  pub create_tx_sender : is_proper input.create_tx_sender ≡ true
  pub fund_tx_hash : is_proper input.fund_tx_hash ≡ true
  pub fund_tx_sender : is_proper input.fund_tx_sender ≡ true

abbrev lower : Option Text → Option Text
lower none = none
lower (some s) = some (to_lower_case s)

-- A recorded text stays, up to the case of its letters.
abbrev pub Stays : Option Text → Option Text → Type 0
Stays old new = truthy old ≡ true → lower new ≡ lower old

Stays-or_option :
    (old input : Option Text)
    → is_proper input ≡ true
    → conflicts_lower old input ≡ false
    → Stays old (or_option input old)
unfolding conflicts_lower
Stays-or_option old none proper apart = λ h. refl
Stays-or_option none (some t) proper apart = λ h. absurd (ground arith)
Stays-or_option (some s) (some t) proper apart =
    λ h. ap some (sym ((text_eq_iff (to_lower_case s) (to_lower_case t)).0 (ground arith)))

same-or_option :
    (old input : Option Text)
    → is_proper input ≡ true
    → conflicts old input ≡ false
    → truthy old ≡ true
    → or_option input old ≡ old
unfolding conflicts
same-or_option old none proper apart = λ h. refl
same-or_option none (some t) proper apart = λ h. absurd (ground arith)
same-or_option (some s) (some t) proper apart =
    λ h. ap some (sym ((text_eq_iff s t).0 (ground arith)))

pub record Free (input : Artifacts) (job : WireJob) : Type 0 where
  contract_address : conflicts_lower job.contract_address input.contract_address ≡ false
  contract_job_id : conflicts job.contract_job_id input.contract_job_id ≡ false
  create_tx_hash : conflicts_lower job.create_tx_hash input.create_tx_hash ≡ false
  create_tx_sender : conflicts_lower job.create_tx_sender input.create_tx_sender ≡ false
  fund_tx_hash : conflicts_lower job.fund_tx_hash input.fund_tx_hash ≡ false
  fund_tx_sender : conflicts_lower job.fund_tx_sender input.fund_tx_sender ≡ false

no_conflict-Free :
    (input : Artifacts) (job : WireJob) (db : WireDb) {a : Unit {0}} {db' : WireDb}
    → no_conflict input job db ≡ ok (a, db')
    → (db ≡ db') × Free input job
unfolding no_conflict
no_conflict-Free input job db e = (
  ground arith,
  record {
    contract_address = ground arith;
    contract_job_id = ground arith;
    create_tx_hash = ground arith;
    create_tx_sender = ground arith;
    fund_tx_hash = ground arith;
    fund_tx_sender = ground arith;
  },
)

-- Nothing that a job has recorded is lost or replaced.
pub record ArtifactsStay (job job' : WireJob) : Type 0 where
  pub contract_address : Stays job.contract_address job'.contract_address
  pub contract_job_id :
      truthy job.contract_job_id ≡ true → job'.contract_job_id ≡ job.contract_job_id
  pub create_tx_hash : Stays job.create_tx_hash job'.create_tx_hash
  pub create_tx_sender : Stays job.create_tx_sender job'.create_tx_sender
  pub fund_tx_hash : Stays job.fund_tx_hash job'.fund_tx_hash
  pub fund_tx_sender : Stays job.fund_tx_sender job'.fund_tx_sender

record_job-ArtifactsStay :
    (now : ℕ) (input : Artifacts) (job row : WireJob)
    → IsProper input
    → Free input job
    → ArtifactsStay job (record_job now input job row)
record_job-ArtifactsStay now input job row p f = record {
  contract_address =
      Stays-or_option job.contract_address input.contract_address p.contract_address
        f.contract_address;
  contract_job_id =
      same-or_option job.contract_job_id input.contract_job_id p.contract_job_id f.contract_job_id;
  create_tx_hash =
      Stays-or_option job.create_tx_hash input.create_tx_hash p.create_tx_hash f.create_tx_hash;
  create_tx_sender =
      Stays-or_option job.create_tx_sender input.create_tx_sender p.create_tx_sender
        f.create_tx_sender;
  fund_tx_hash = Stays-or_option job.fund_tx_hash input.fund_tx_hash p.fund_tx_hash f.fund_tx_hash;
  fund_tx_sender =
      Stays-or_option job.fund_tx_sender input.fund_tx_sender p.fund_tx_sender f.fund_tx_sender;
}

-- What the writes have found, and what they have left.
pub record Recorded (now : ℕ) (input : Artifacts) (job : WireJob) (read : Option WireJobWorkflow)
    (db : WireDb) (job' : WireJob) (db' : WireDb) : Type 0 where
  pub row : WireJob
  pub there : find (has_id job.id) db.jobs ≡ some row
  pub free : Free input job
  pub is_job : job' ≡ record_job now input job row
  pub quotes : db'.quotes ≡ db.quotes
  pub jobs : db'.jobs ≡ update (has_id job.id) (record_job now input job) db.jobs
  pub workflows :
      db'.workflows ≡ update (of_job job.id) (record_workflow now input read) db.workflows

pub record_artifacts_body-Recorded :
    (now : ℕ) (input : Artifacts) (job : WireJob) (read : Option WireJobWorkflow) (db : WireDb)
    {job' : WireJob} {db' : WireDb}
    → record_artifacts_body now input job read db ≡ ok (job', db')
    → Recorded now input job read db job' db'
unfolding record_artifacts_body
record_artifacts_body-Recorded now input job read db {job'} {db'} e =
    let (_, db₂, checked, e₂) =
      >>=-eq-ok (no_conflict input job)
        (λ _. update_workflow (of_job job.id) (record_workflow now input read) >>= λ _.
          update_job (has_id job.id) (record_job now input job))
        db e in
    let (same₁, free) = no_conflict-Free input job db {db' = db₂} checked in
    let (_, db₃, workflow, e₃) =
      >>=-eq-ok (update_workflow (of_job job.id) (record_workflow now input read))
        (λ _. update_job (has_id job.id) (record_job now input job)) db₂ e₂ in
    let (_, _, _, w) =
      update_workflow-writes (of_job job.id) (record_workflow now input read) db₂ {db' = db₃}
        workflow in
    let (row, there, is_job, written) =
      update_job-writes (has_id job.id) (record_job now input job) db₃ {db' = db'} e₃ in
    record {
      row = row;
      there = ground arith;
      free = free;
      is_job = is_job;
      quotes = ground arith;
      jobs = ground arith;
      workflows = ground arith;
    }

-- A job that was read and recorded, where `row` is what others had left of it at the write.
record Stored (now : ℕ) (input : Artifacts) (job row : WireJob) (db' : WireDb) : Type 0 where
  free : Free input job
  listed : IsListed db' (record_job now input job row)

record_wire_job_execution_artifacts-Stored :
    (now : ℕ) (between : WireDb → WireDb) (job_id : Text) (input : Artifacts) (db : WireDb)
    (job row : WireJob) {job' : WireJob} {db' : WireDb}
    → find (has_job_id job_id) db.jobs ≡ some job
    → IsListed (between db) row
    → row.id ≡ job.id
    → record_wire_job_execution_artifacts now between job_id input db ≡ (ok job', db')
    → Stored now input job row db'
unfolding record_wire_job_execution_artifacts
record_wire_job_execution_artifacts-Stored now between job_id input db job row {job'} {db'} there l
      same e =
    let read : Option WireJobWorkflow = find (of_job job.id) db.workflows in
    let r = record_artifacts_body-Recorded now input job read (between db) (
      transaction-eq-ok (record_artifacts_body now input job read) (between db)
        (rw (there, record_wire_job_execution_artifacts) at e)) in
    record {
      free = r.free;
      listed =
          IsListed-update (record_job now input job) (record_workflow now input read) (between db)
            db' row l refl refl (λ w. refl)
            (subst (λ k. db'.jobs ≡ update (has_id k) (record_job now input job) (between db).jobs)
              (sym same) r.jobs)
            (subst
              (λ k.
                db'.workflows
                ≡ update (of_job k) (record_workflow now input read) (between db).workflows)
              (sym same) r.workflows);
    }

-- If recordWireJobExecutionArtifacts answers a job, for arguments that hold no empty text, and others
-- have left the job as it was read until the write, then in the stored job the contract address,
-- transaction hashes and senders that were recorded are as they were, up to the case of their letters,
-- and the contract identifier exactly.
pub record_wire_job_execution_artifacts-ArtifactsStay :
    (now : ℕ) (between : WireDb → WireDb) (input : Artifacts) (db : WireDb) (job : WireJob)
    {job' : WireJob} {db' : WireDb}
    → IsProper input
    → find (has_job_id job.job_id) db.jobs ≡ some job
    → IsListed (between db) job
    → record_wire_job_execution_artifacts now between job.job_id input db ≡ (ok job', db')
    → (stored : WireJob) × (find (has_job_id job.job_id) db'.jobs ≡ some stored)
      × ArtifactsStay job stored
record_wire_job_execution_artifacts-ArtifactsStay now between input db job p there l e =
    let s =
      record_wire_job_execution_artifacts-Stored now between job.job_id input db job job there l
        refl e in
    (
      record_job now input job job,
      s.listed.by_job_id,
      record_job-ArtifactsStay now input job job p s.free,
    )
