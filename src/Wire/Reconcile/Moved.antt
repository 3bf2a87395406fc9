-- ===== src/Wire/Reconcile/Moved.antt =====
-- What the operator's transactions write when they answer.
use ghost_protocol.Prelude.{◌≡◌, arith, some, find, update, Bool-cases, inl, inr}
use ghost_protocol.Store.{ok, ◌>>◌, ◌>>=◌, >>=-eq-ok, return}
use ghost_protocol.Wire.Reconcile.{move_job, announce}
use ghost_protocol.Wire.Tables.{
  upsert_outbox, has_id, update_job, update_workflow, of_job, put_transition, upsert_transition,
}
use ghost_protocol.Wire.Schema.{
  WireJob, WireJobWorkflow, WireWebhookOutbox, WireJobTransition, WireDb,
}
use ghost_protocol.Wire.Terms.{has_wire_webhook_target}
use ghost_protocol.Wire.Tables.Writes.{
  update_job-writes, update_workflow-writes, upsert_transition-writes,
}

announce-frame :
    (job : WireJob) (row : WireWebhookOutbox) (db : WireDb) {a : Unit {0}} {db' : WireDb}
    → announce job row db ≡ ok (a, db')
    → (db'.quotes ≡ db.quotes)
      × (db'.jobs ≡ db.jobs)
      × (db'.workflows ≡ db.workflows)
      × (db'.spends ≡ db.spends)
      × (db'.transitions ≡ db.transitions)
unfolding announce upsert_outbox
announce-frame job row db e = elim (Bool-cases (has_wire_webhook_target job)) [
  | inl target ↦ (ground arith, ground arith, ground arith, ground arith, ground arith)
  | inr silent ↦ (ground arith, ground arith, ground arith, ground arith, ground arith)
]

-- The transition is put in, or written over the row that has its event's id.
pub record Stepped (f : WireJob → WireJob) (g : WireJobWorkflow → WireJobWorkflow)
    (transition : WireJobTransition) (job : WireJob) (db : WireDb) (job' : WireJob) (db' : WireDb)
    : Type 0 where
  pub row : WireJob
  pub row_there : find (has_id job.id) db.jobs ≡ some row
  pub is_job : job' ≡ f row
  pub quotes : db'.quotes ≡ db.quotes
  pub jobs : db'.jobs ≡ update (has_id job.id) f db.jobs
  pub workflows : db'.workflows ≡ update (of_job job.id) g db.workflows
  pub spends : db'.spends ≡ db.spends
  pub transitions : db'.transitions ≡ put_transition transition db.transitions

pub move_job-Stepped :
    (f : WireJob → WireJob) (g : WireJobWorkflow → WireJobWorkflow)
    (transition : WireJob → WireJobTransition) (event : WireJob → WireJob → WireWebhookOutbox)
    (job : WireJob) (db : WireDb) {job' : WireJob} {db' : WireDb}
    → move_job f g transition event job db ≡ ok (job', db')
    → Stepped f g (transition job) job db job' db'
unfolding move_job
move_job-Stepped f g transition event job db {job'} {db'} e =
    let (a, db₁, updated, e₁) =
      >>=-eq-ok (update_job (has_id job.id) f)
        (λ updated. update_workflow (of_job job.id) g >>= λ _.
          upsert_transition (transition job)
          >> (announce updated (event job updated) >> return updated))
        db e in
    let (_, db₂, worked, e₂) =
      >>=-eq-ok (update_workflow (of_job job.id) g)
        (λ _. upsert_transition (transition job) >> (announce a (event job a) >> return a)) db₁
        e₁ in
    let (_, db₃, moved, e₃) =
      >>=-eq-ok (upsert_transition (transition job)) (λ _. announce a (event job a) >> return a) db₂
        e₂ in
    let (_, db₄, told, e₄) = >>=-eq-ok (announce a (event job a)) (λ _. return a) db₃ e₃ in
    let (row, row_there, is_job, w₁) = update_job-writes (has_id job.id) f db {db' = db₁} updated in
    let (_, _, _, w₂) = update_workflow-writes (of_job job.id) g db₁ {db' = db₂} worked in
    let w₃ = upsert_transition-writes (transition job) db₂ {db' = db₃} moved in
    let (qs, js, ws, ss, ts) = announce-frame a (event job a) db₃ {db' = db₄} told in
    record {
      row = row;
      row_there = row_there;
      is_job = ground arith;
      quotes = ground arith;
      jobs = ground arith;
      workflows = ground arith;
      spends = ground arith;
      transitions = ground arith;
    }
