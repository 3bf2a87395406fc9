-- ===== src/Wire/Tables.antt =====
-- The queries and writes on the Wire tables that lib/ghostwire-store.ts makes, with the unique columns of
-- prisma/schema.prisma.
pub mod Writes
use ghost_protocol.Prelude.{
  ℕ, Bool, true, false, not, Option, none, some, List, [], ◌∷◌, Text, codes, text_eq, some_of, find,
  select, update, if◌then◌else◌,
}
use ghost_protocol.Store.{
  lift, StateM, Result, ok, err, ◌>>=◌, ◌>>◌, return, guard, record_not_found, Error,
  unique_violation, wire_job_not_found,
}
use ghost_protocol.Wire.Schema.{
  WireDb, WireJob, WireQuote, WireOperatorSpend, WireWebhookOutbox, WireJobTransition,
  WireJobWorkflow,
}

abbrev pub W : Type 0 → Type 0
W A = StateM WireDb A

abbrev pub has_quote_id : Text → WireQuote → Bool
has_quote_id id quote = text_eq quote.quote_id id

abbrev pub has_job_id : Text → WireJob → Bool
has_job_id id job = text_eq job.job_id id

abbrev pub has_id : Text → WireJob → Bool
has_id id job = text_eq job.id id

abbrev pub of_job : Text → WireJobWorkflow → Bool
of_job id workflow = text_eq workflow.wire_job_id id

abbrev pub spent_on : Text → WireOperatorSpend → Bool
spent_on id spend = text_eq spend.wire_job_id id

abbrev pub has_tx_hash : Text → WireOperatorSpend → Bool
has_tx_hash tx spend = text_eq spend.tx_hash tx

abbrev pub is_transition : Text → WireJobTransition → Bool
is_transition id transition = text_eq transition.event_id id

abbrev pub is_event : Text → WireWebhookOutbox → Bool
is_event id event = text_eq event.event_id id

-- A row that must be there, or the given error.
abbrev pub found {ℓ} : {A : Type ℓ} → Option A → Error → Result A
found none e = err e
found (some a) e = ok a

-- `update` of one row by a unique column, answering the row as written; P2025 where there is none.
unfoldable pub update_job : (WireJob → Bool) → (WireJob → WireJob) → W WireJob
update_job p f db = elim (find p db.jobs) [
  | none ↦ err record_not_found
  | some job ↦ ok (f job, record db { jobs = update p f db.jobs })
]

unfoldable pub update_workflow :
    (WireJobWorkflow → Bool) → (WireJobWorkflow → WireJobWorkflow) → W WireJobWorkflow
update_workflow p f db = elim (find p db.workflows) [
  | none ↦ err record_not_found
  | some workflow ↦ ok (f workflow, record db { workflows = update p f db.workflows })
]

unfoldable pub update_quote : (WireQuote → Bool) → (WireQuote → WireQuote) → W WireQuote
update_quote p f db = elim (find p db.quotes) [
  | none ↦ err record_not_found
  | some quote ↦ ok (f quote, record db { quotes = update p f db.quotes })
]

unfoldable pub create_quote : WireQuote → W WireQuote
create_quote quote db =
    if some_of (has_quote_id quote.quote_id) db.quotes
    then err (unique_violation (codes "quoteId") (codes "WireQuote"))
    else ok (quote, record db { quotes = quote ∷ db.quotes })

-- The job with its workflow: `id`, `jobId` and `quoteId` are unique, and so is the workflow's job.
unfoldable pub create_job : WireJob → WireJobWorkflow → W WireJob
create_job job workflow db =
    if some_of (has_id job.id) db.jobs
    then err (unique_violation (codes "id") (codes "WireJob"))
    else if some_of (has_job_id job.job_id) db.jobs
    then err (unique_violation (codes "jobId") (codes "WireJob"))
    else if some_of (λ other. text_eq other.quote_id job.quote_id) db.jobs
    then err (unique_violation (codes "quoteId") (codes "WireJob"))
    else if some_of (of_job workflow.wire_job_id) db.workflows
    then err (unique_violation (codes "wireJobId") (codes "WireJobWorkflow"))
    else ok (job, record db { jobs = job ∷ db.jobs; workflows = workflow ∷ db.workflows })

unfoldable pub create_transition : WireJobTransition → W (Unit {0})
create_transition row db =
    if some_of (is_transition row.event_id) db.transitions
    then err (unique_violation (codes "eventId") (codes "WireJobTransition"))
    else ok (tt, record db { transitions = row ∷ db.transitions })

unfoldable pub create_outbox : WireWebhookOutbox → W (Unit {0})
create_outbox row db =
    if some_of (is_event row.event_id) db.outbox
    then err (unique_violation (codes "eventId") (codes "WireWebhookOutbox"))
    else ok (tt, record db { outbox = row ∷ db.outbox })

-- `upsert` by a unique column: the row that is there is changed, or a new one is put in.
unfoldable pub upsert {ℓ} : {A : Type ℓ} → (A → Bool) → (A → A) → A → List A → List A
upsert p f row rows = if some_of p rows then update p f rows else row ∷ rows

unfoldable pub put_transition : WireJobTransition → List WireJobTransition → List WireJobTransition
unfolding upsert
put_transition row rows =
    upsert (is_transition row.event_id)
      (λ (there : WireJobTransition). record row { wire_job_id = there.wire_job_id }) row rows

unfoldable pub upsert_transition : WireJobTransition → W (Unit {0})
unfolding put_transition
upsert_transition row db = ok (tt, record db { transitions = put_transition row db.transitions })

-- The update of an outbox row leaves its delivery as it is.
unfoldable pub put_event : WireWebhookOutbox → List WireWebhookOutbox → List WireWebhookOutbox
unfolding upsert
put_event row rows =
    upsert (is_event row.event_id)
      (λ (there : WireWebhookOutbox). record there {
        event_type = row.event_type;
        state = row.state;
        contract_state = row.contract_state;
        payload_json = row.payload_json;
      })
      row rows

unfoldable pub upsert_outbox : WireWebhookOutbox → W (Unit {0})
unfolding put_event
upsert_outbox row db = ok (tt, record db { outbox = put_event row db.outbox })

-- `findUnique` and `if (!job) throw new WireJobNotFoundError()`.
unfoldable pub require_job : Text → W WireJob
require_job job_id db = lift (found (find (has_job_id job_id) db.jobs) wire_job_not_found) db
