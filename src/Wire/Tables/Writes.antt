-- ===== src/Wire/Tables/Writes.antt =====
-- What each write on the Wire tables changes when it answers.
use ghost_protocol.Prelude.{
  arith, ◌≡◌, Bool, false, some, Option-cases, inl, inr, find, update, ◌∷◌, Text, some_of, text_eq,
}
use ghost_protocol.Store.{ok}
use ghost_protocol.Wire.Schema.{
  WireDb, WireQuote, WireJob, WireJobWorkflow, WireWebhookOutbox, WireJobTransition,
}
use ghost_protocol.Wire.Tables.{
  update_job, update_quote, create_job, create_outbox, create_transition, update_workflow,
  require_job, has_job_id, upsert_transition, put_transition,
}

pub create_job-writes :
    (job : WireJob) (workflow : WireJobWorkflow) (db : WireDb) {a : WireJob} {db' : WireDb}
    → create_job job workflow db ≡ ok (a, db')
    → (a ≡ job)
      × (db' ≡ record db { jobs = job ∷ db.jobs; workflows = workflow ∷ db.workflows })
      × (some_of (has_job_id job.job_id) db.jobs ≡ false)
      × (some_of (λ other. text_eq other.quote_id job.quote_id) db.jobs ≡ false)
unfolding create_job
create_job-writes job workflow db e = (ground arith, ground arith, ground arith, ground arith)

pub update_quote-writes :
    (p : WireQuote → Bool) (f : WireQuote → WireQuote) (db : WireDb) {a : WireQuote} {db' : WireDb}
    → update_quote p f db ≡ ok (a, db')
    → db' ≡ record db { quotes = update p f db.quotes }
unfolding update_quote
update_quote-writes p f db e = elim (Option-cases (find p db.quotes)) [
  | inl gone ↦ absurd (ground arith)
  | inr (quote, there) ↦ ground arith
]

pub update_job-writes :
    (p : WireJob → Bool) (f : WireJob → WireJob) (db : WireDb) {a : WireJob} {db' : WireDb}
    → update_job p f db ≡ ok (a, db')
    → (job : WireJob) × (find p db.jobs ≡ some job)
      × (a ≡ f job)
      × (db' ≡ record db { jobs = update p f db.jobs })
unfolding update_job
update_job-writes p f db e = elim (Option-cases (find p db.jobs)) [
  | inl gone ↦ absurd (ground arith)
  | inr (job, there) ↦ (job, there, ground arith, ground arith)
]

pub update_workflow-writes :
    (p : WireJobWorkflow → Bool) (f : WireJobWorkflow → WireJobWorkflow) (db : WireDb)
    {a : WireJobWorkflow} {db' : WireDb}
    → update_workflow p f db ≡ ok (a, db')
    → (workflow : WireJobWorkflow) × (find p db.workflows ≡ some workflow)
      × (a ≡ f workflow)
      × (db' ≡ record db { workflows = update p f db.workflows })
unfolding update_workflow
update_workflow-writes p f db e = elim (Option-cases (find p db.workflows)) [
  | inl gone ↦ absurd (ground arith)
  | inr (workflow, there) ↦ (workflow, there, ground arith, ground arith)
]

pub create_transition-writes :
    (row : WireJobTransition) (db : WireDb) {a : Unit {0}} {db' : WireDb}
    → create_transition row db ≡ ok (a, db')
    → db' ≡ record db { transitions = row ∷ db.transitions }
unfolding create_transition
create_transition-writes row db e = ground arith

pub create_outbox-writes :
    (row : WireWebhookOutbox) (db : WireDb) {a : Unit {0}} {db' : WireDb}
    → create_outbox row db ≡ ok (a, db')
    → db' ≡ record db { outbox = row ∷ db.outbox }
unfolding create_outbox
create_outbox-writes row db e = ground arith

pub require_job-found :
    (job_id : Text) (db : WireDb) {job : WireJob} {db' : WireDb}
    → require_job job_id db ≡ ok (job, db')
    → (db ≡ db') × (find (has_job_id job_id) db.jobs ≡ some job)
unfolding require_job
require_job-found job_id db e = elim (Option-cases (find (has_job_id job_id) db.jobs)) [
  | inl gone ↦ absurd (ground arith)
  | inr (job, there) ↦ (ground arith, ground arith)
]

pub upsert_transition-writes :
    (row : WireJobTransition) (db : WireDb) {a : Unit {0}} {db' : WireDb}
    → upsert_transition row db ≡ ok (a, db')
    → db' ≡ record db { transitions = put_transition row db.transitions }
unfolding upsert_transition
upsert_transition-writes row db e = ground arith
