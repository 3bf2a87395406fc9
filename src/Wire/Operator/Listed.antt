-- ===== src/Wire/Operator/Listed.antt =====
-- A job that is listed has a row and a workflow, and keeps them through the operator's transactions.
use ghost_protocol.Prelude.{
  ◌≡◌, refl, arith, Bool, true, false, some, List, [], ◌∷◌, Text, find, update, Bool-cases, inl,
  inr, text_eq_refl, sym, ap, find-update_self, find-test, text_eq,
}
use ghost_protocol.Store.{ok, ◌>>◌, ◌>>=◌, transaction}
use ghost_protocol.Wire.Schema.{
  WireDb, WireJob, WireJobWorkflow, WireWebhookOutbox, WireJobTransition,
}
use mathlib.Core.Path.{subst}
use ghost_protocol.Wire.Tables.{
  has_id, has_job_id, of_job, update_job, update_workflow, require_job, upsert_outbox,
  upsert_transition, put_event, put_transition,
}
use ghost_protocol.Wire.Reconcile.{announce, move_job}
use ghost_protocol.Wire.Terms.{has_wire_webhook_target}

pub record IsListed (db : WireDb) (job : WireJob) : Type 0 where
  pub workflow : WireJobWorkflow
  pub by_id : find (has_id job.id) db.jobs ≡ some job
  pub by_job_id : find (has_job_id job.job_id) db.jobs ≡ some job
  pub has_workflow : find (of_job job.id) db.workflows ≡ some workflow

-- Two lookups that find the same row find it after it is changed by the first.
find-update_both :
    {A : Type 0} (p q : A → Bool) (f : A → A) (rows : List A) {row : A}
    → find p rows ≡ some row
    → find q rows ≡ some row
    → q (f row) ≡ true
    → find q (update p f rows) ≡ some (f row)
unfolding find update
find-update_both p q f [] h k hit = cc
find-update_both p q f (x ∷ xs) {row} h k hit = elim (Bool-cases (p x)) [
  | inl here ↦
      let same : x ≡ row = ground arith in
      let moved : q (f x) ≡ true = subst (λ r. q (f r) ≡ true) (sym same) hit in
      rw (here, update, find, moved) (ap (λ r. some (f r)) same)
  | inr later ↦ elim (Bool-cases (q x)) [
    | inl early ↦
        let same : x ≡ row = ground arith in
        let hit_p : p row ≡ true = find-test p (x ∷ xs) h in
        let missed : p row ≡ false = subst (λ r. p r ≡ false) same later in absurd (ground arith)
    | inr past ↦
        rw (later, past, update, find)
          (find-update_both p q f xs {row = row} (ground arith) (ground arith) hit)
  ]
]

-- A database whose jobs and workflows have been changed at this job only.
pub IsListed-update :
    (f : WireJob → WireJob) (g : WireJobWorkflow → WireJobWorkflow) (db db' : WireDb)
    (job : WireJob)
    → IsListed db job
    → (f job).id ≡ job.id
    → (f job).job_id ≡ job.job_id
    → ((w : WireJobWorkflow) → (g w).wire_job_id ≡ w.wire_job_id)
    → db'.jobs ≡ update (has_id job.id) f db.jobs
    → db'.workflows ≡ update (of_job job.id) g db.workflows
    → IsListed db' (f job)
IsListed-update f g db db' job l id job_id kept jobs workflows = record {
  workflow = g l.workflow;
  by_id =
      subst (λ key. find (has_id key) db'.jobs ≡ some (f job)) (sym id)
        (rw jobs (
          find-update_both (has_id job.id) (has_id job.id) f db.jobs l.by_id l.by_id
            (rw id (text_eq_refl job.id))));
  by_job_id =
      subst (λ key. find (has_job_id key) db'.jobs ≡ some (f job)) (sym job_id)
        (rw jobs (
          find-update_both (has_id job.id) (has_job_id job.job_id) f db.jobs l.by_id l.by_job_id
            (rw job_id (text_eq_refl job.job_id))));
  has_workflow =
      subst (λ key. find (of_job key) db'.workflows ≡ some (g l.workflow)) (sym id)
        (rw workflows (
          find-update_self (of_job job.id) g db.workflows
            (λ w h. subst (λ key. text_eq key job.id ≡ true) (sym (kept w)) h) l.has_workflow));
}

pub update_job-ok :
    (f : WireJob → WireJob) (db : WireDb) (job : WireJob)
    → find (has_id job.id) db.jobs ≡ some job
    → update_job (has_id job.id) f db
      ≡ ok (f job, record db { jobs = update (has_id job.id) f db.jobs })
unfolding update_job
update_job-ok f db job there = rw (there, update_job) refl

pub update_workflow-ok :
    (g : WireJobWorkflow → WireJobWorkflow) (db : WireDb) (id : Text) {workflow : WireJobWorkflow}
    → find (of_job id) db.workflows ≡ some workflow
    → update_workflow (of_job id) g db
      ≡ ok (g workflow, record db { workflows = update (of_job id) g db.workflows })
unfolding update_workflow
update_workflow-ok g db id there = rw (there, update_workflow) refl

announce-ok :
    (job : WireJob) (row : WireWebhookOutbox) (db : WireDb)
    → (db' : WireDb) × (announce job row db ≡ ok (tt, db'))
      × (db'.jobs ≡ db.jobs)
      × (db'.workflows ≡ db.workflows)
unfolding announce upsert_outbox
announce-ok job row db = elim (Bool-cases (has_wire_webhook_target job)) [
  | inl target ↦
      (record db { outbox = put_event row db.outbox }, rw (target, announce) refl, refl, refl)
  | inr silent ↦ (db, rw (silent, announce) refl, refl, refl)
]

-- The transaction that moves a listed job answers it moved, and it is listed still.
pub move_found-ok :
    (f : WireJob → WireJob) (g : WireJobWorkflow → WireJobWorkflow)
    (transition : WireJob → WireJobTransition)
    (event : WireJob → WireJob → WireJob → WireWebhookOutbox) (db : WireDb) (job : WireJob)
    → IsListed db job
    → (f job).id ≡ job.id
    → (f job).job_id ≡ job.job_id
    → ((w : WireJobWorkflow) → (g w).wire_job_id ≡ w.wire_job_id)
    → (db' : WireDb) × IsListed db' (f job)
      × (transaction
            (require_job job.job_id >>= λ found_job.
              move_job f g transition (event found_job) found_job)
            db
          ≡ (ok (f job), db'))
unfolding require_job move_job upsert_transition
move_found-ok f g transition event db job l id job_id kept =
    let db₁ : WireDb = record db { jobs = update (has_id job.id) f db.jobs } in
    let db₂ : WireDb = record db₁ { workflows = update (of_job job.id) g db.workflows } in
    let db₃ : WireDb = record db₂ {
      transitions = put_transition (transition job) db.transitions;
    } in
    let (db₄, told, jobs, workflows) = announce-ok (f job) (event job job (f job)) db₃ in
    (
      db₄,
      IsListed-update f g db db₄ job l id job_id kept jobs workflows,
      rw
          (
            l.by_job_id,
            update_job-ok f db job l.by_id,
            update_workflow-ok g db₁ job.id l.has_workflow,
            told,
            transaction,
            ◌>>=◌,
            ◌>>◌,
            move_job,
          )
          refl,
    )
