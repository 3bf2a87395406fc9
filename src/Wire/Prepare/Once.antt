-- ===== src/Wire/Prepare/Once.antt =====
-- What prepareWireJobFromQuote leaves behind when it answers a job, and what a consumed quote answers.
use ghost_protocol.Prelude.{
  ℕ, arith, ◌≡◌, refl, Bool, true, false, Option, some, Text, find, ◌∷◌, inl, inr, Bool-cases,
  find-update_self, find-test, update, leb, text_eq_iff, sym, ◌⊎◌, some_of, text_eq, ap, none,
}
use ghost_protocol.Store.{
  Result, ok, err, ◌>>=◌, ◌>>◌, return, >>=-eq-ok, lift, transaction, transaction-eq-ok,
  Result-cases, lift-db, Error, lift-value, wire_quote_expired, wire_quote_consumed,
  wire_job_insufficient_balance,
}
use ghost_protocol.Wire.Schema.{WireDb, WireQuote, WireJob, job_open}
use ghost_protocol.Wire.Config.{WireSettings}
use ghost_protocol.Wire.Tables.{
  has_quote_id, create_outbox, create_job, update_quote, create_transition, has_job_id,
}
use ghost_protocol.Wire.Quotes.{PrepareInput, check_wire_quote, check_wire_quote-IsUsable, IsUsable}
use ghost_protocol.Wire.Prepare.{
  Fresh, prepare_wire_job_from_quote, open_job, place_job, announce_open, job_of, workflow_of,
  consume_quote, open_transition,
}
use ghost_protocol.Wire.Tables.Writes.{
  create_job-writes, update_quote-writes, create_transition-writes,
}
use mathlib.Core.Path.{subst}

-- The quote of this id is there and has been consumed.
pub record IsConsumed (id : Text) (db : WireDb) : Type 0 where
  pub quote : WireQuote
  pub at : ℕ
  pub is_there : find (has_quote_id id) db.quotes ≡ some quote
  pub consumed : quote.consumed_at ≡ some at

pub record Opened (cfg : WireSettings) (fresh : Fresh) (input : PrepareInput) (db : WireDb)
    (job : WireJob) (db' : WireDb) : Type 0 where
  pub quote : WireQuote
  pub was_there : find (has_quote_id input.quote_id) db.quotes ≡ some quote
  pub usable : IsUsable fresh.now input quote
  pub same_id : quote.quote_id ≡ input.quote_id
  pub new_job_id : some_of (has_job_id fresh.job_id) db.jobs ≡ false
  pub first_job : some_of (λ other. text_eq other.quote_id quote.quote_id) db.jobs ≡ false
  pub is_open : (job.contract_state ≡ job_open) × (job.public_state ≡ job_open)
  pub principal : job.principal_amount ≡ quote.principal_amount
  pub budget : job.contract_budget_amount ≡ quote.principal_amount
  pub fee : job.protocol_fee_amount ≡ quote.protocol_fee_amount
  pub reserve : job.network_reserve_amount ≡ quote.network_reserve_amount
  pub chain_id : job.chain_id ≡ quote.chain_id
  pub of_quote : job.quote_id ≡ quote.quote_id
  pub client : job.client_address ≡ input.client_address
  pub provider : job.provider_address ≡ input.provider_address
  pub evaluator : job.evaluator_address ≡ input.evaluator_address
  pub unsettled : job.terminal_disposition ≡ none
  pub is_job : job ≡ job_of cfg fresh input quote
  pub jobs : db'.jobs ≡ job ∷ db.jobs
  pub workflows : db'.workflows ≡ workflow_of fresh.row_id ∷ db.workflows
  pub spends : db'.spends ≡ db.spends
  pub quotes :
      db'.quotes
      ≡ update (has_quote_id quote.quote_id) (consume_quote fresh.now input quote) db.quotes
  pub consumed : IsConsumed input.quote_id db'

-- Steps that write only transitions and the outbox.
record SameCore (db db' : WireDb) : Type 0 where
  quotes : db'.quotes ≡ db.quotes
  jobs : db'.jobs ≡ db.jobs
  workflows : db'.workflows ≡ db.workflows
  spends : db'.spends ≡ db.spends

announce_open-SameCore :
    (cfg : WireSettings) (now : ℕ) (job : WireJob) (db : WireDb) {a : Unit {0}} {db' : WireDb}
    → announce_open cfg now job db ≡ ok (a, db')
    → SameCore db db'
unfolding announce_open create_outbox
announce_open-SameCore cfg now job db e = record {
  quotes = ground arith;
  jobs = ground arith;
  workflows = ground arith;
  spends = ground arith;
}

-- What the writes leave, for a quote that the checks passed.
record Placed (cfg : WireSettings) (fresh : Fresh) (input : PrepareInput) (quote : WireQuote)
    (db : WireDb) (job : WireJob) (db' : WireDb) : Type 0 where
  is_job : job ≡ job_of cfg fresh input quote
  new_job_id : some_of (has_job_id fresh.job_id) db.jobs ≡ false
  first_job : some_of (λ other. text_eq other.quote_id quote.quote_id) db.jobs ≡ false
  jobs : db'.jobs ≡ job ∷ db.jobs
  workflows : db'.workflows ≡ workflow_of fresh.row_id ∷ db.workflows
  spends : db'.spends ≡ db.spends
  quotes :
      db'.quotes
      ≡ update (has_quote_id quote.quote_id) (consume_quote fresh.now input quote) db.quotes

place_job-Placed :
    (cfg : WireSettings) (fresh : Fresh) (input : PrepareInput) (quote : WireQuote) (db : WireDb)
    {job : WireJob} {db' : WireDb}
    → place_job cfg fresh input quote db ≡ ok (job, db')
    → Placed cfg fresh input quote db job db'
unfolding place_job
place_job-Placed cfg fresh input quote db {job} {db'} e =
    let new : WireJob = job_of cfg fresh input quote in
    let (a, db₁, created, e₁) =
      >>=-eq-ok (create_job new (workflow_of fresh.row_id))
        (λ job.
          update_quote (has_quote_id quote.quote_id) (consume_quote fresh.now input quote) >>= λ _.
          create_transition (open_transition fresh.now job)
          >> (announce_open cfg fresh.now job >> return job))
        db e in
    let (_, db₂, consumed, e₂) =
      >>=-eq-ok (update_quote (has_quote_id quote.quote_id) (consume_quote fresh.now input quote))
        (λ _.
          create_transition (open_transition fresh.now a)
          >> (announce_open cfg fresh.now a >> return a))
        db₁ e₁ in
    let (_, db₃, moved, e₃) =
      >>=-eq-ok (create_transition (open_transition fresh.now a))
        (λ _. announce_open cfg fresh.now a >> return a) db₂ e₂ in
    let (_, db₄, told, e₄) = >>=-eq-ok (announce_open cfg fresh.now a) (λ _. return a) db₃ e₃ in
    let (same, w₁, new_job_id, first_job) =
      create_job-writes new (workflow_of fresh.row_id) db created in
    let w₂ =
      update_quote-writes (has_quote_id quote.quote_id) (consume_quote fresh.now input quote) db₁
        consumed in
    let w₃ = create_transition-writes (open_transition fresh.now a) db₂ moved in
    let w₄ = announce_open-SameCore cfg fresh.now a db₃ told in
    record {
      is_job = ground arith;
      new_job_id = new_job_id;
      first_job = first_job;
      jobs = ground (arith, w₄.jobs);
      workflows = ground (arith, w₄.workflows);
      spends = ground (arith, w₄.spends);
      quotes = ground (arith, w₄.quotes);
    }

Placed-IsConsumed :
    (cfg : WireSettings) (fresh : Fresh) (input : PrepareInput) (quote : WireQuote) (db : WireDb)
    {job : WireJob} {db' : WireDb}
    → Placed cfg fresh input quote db job db'
    → find (has_quote_id input.quote_id) db.quotes ≡ some quote
    → IsConsumed input.quote_id db'
Placed-IsConsumed cfg fresh input quote db {job} {db'} placed there =
    let new : WireQuote = consume_quote fresh.now input quote quote in
    let hit : has_quote_id input.quote_id quote ≡ true =
      find-test (has_quote_id input.quote_id) db.quotes there in
    let id : quote.quote_id ≡ input.quote_id = (text_eq_iff quote.quote_id input.quote_id).0 hit in
    record {
      quote = new;
      at = fresh.now;
      is_there =
          subst (λ key. find (has_quote_id key) db'.quotes ≡ some new) id
            (rw placed.quotes (
              find-update_self (has_quote_id quote.quote_id) (consume_quote fresh.now input quote)
                db.quotes (λ _ h. h)
                (subst (λ key. find (has_quote_id key) db.quotes ≡ some quote) (sym id) there)));
      consumed = refl;
    }

pub open_job-Opened :
    (cfg : WireSettings) (fresh : Fresh) (input : PrepareInput) (db : WireDb) {job : WireJob}
    {db' : WireDb}
    → open_job cfg fresh input db ≡ ok (job, db')
    → Opened cfg fresh input db job db'
unfolding open_job
open_job-Opened cfg fresh input db {job} {db'} e =
    let stored : Option WireQuote = find (has_quote_id input.quote_id) db.quotes in
    let (quote, db₁, checked, rest) =
      >>=-eq-ok (lift (check_wire_quote fresh.now input stored)) (place_job cfg fresh input) db e in
    let same : db ≡ db₁ = lift-db (check_wire_quote fresh.now input stored) db checked in
    let (there, usable) =
      check_wire_quote-IsUsable fresh.now input stored {quote = quote}
        (lift-value (check_wire_quote fresh.now input stored) db checked) in
    let placed = place_job-Placed cfg fresh input quote db {job = job} {db' = db'} (rw same rest) in
    record {
      quote = quote;
      was_there = there;
      usable = usable;
      same_id =
          (text_eq_iff quote.quote_id input.quote_id).0
            (find-test (has_quote_id input.quote_id) db.quotes there);
      new_job_id = placed.new_job_id;
      first_job = placed.first_job;
      is_open = (ap (λ j. j.contract_state) placed.is_job, ap (λ j. j.public_state) placed.is_job);
      principal = ap (λ j. j.principal_amount) placed.is_job;
      budget = ap (λ j. j.contract_budget_amount) placed.is_job;
      fee = ap (λ j. j.protocol_fee_amount) placed.is_job;
      reserve = ap (λ j. j.network_reserve_amount) placed.is_job;
      chain_id = ap (λ j. j.chain_id) placed.is_job;
      of_quote = ap (λ j. j.quote_id) placed.is_job;
      client = ap (λ j. j.client_address) placed.is_job;
      provider = ap (λ j. j.provider_address) placed.is_job;
      evaluator = ap (λ j. j.evaluator_address) placed.is_job;
      unsettled = ap (λ j. j.terminal_disposition) placed.is_job;
      is_job = placed.is_job;
      jobs = placed.jobs;
      workflows = placed.workflows;
      spends = placed.spends;
      quotes = placed.quotes;
      consumed = Placed-IsConsumed cfg fresh input quote db placed there;
    }

-- If prepareWireJobFromQuote answers a job, its quote was there when the transaction began, unexpired
-- and unconsumed, with the provider and the evaluator of the request; exactly that job and its
-- workflow have been added, the job OPEN on both sides, with the quote's chain and amounts, the parties of
-- the request and no terminal disposition; and the quote is consumed afterwards.
pub prepare_wire_job_from_quote-Opened :
    (cfg : WireSettings) (started : ℕ) (preflight : WireQuote → Result Bool)
    (between : WireDb → WireDb) (fresh : Fresh) (input : PrepareInput) (db : WireDb) {job : WireJob}
    {db' : WireDb}
    → prepare_wire_job_from_quote cfg started preflight between fresh input db ≡ (ok job, db')
    → Opened cfg fresh input (between db) job db'
unfolding prepare_wire_job_from_quote
prepare_wire_job_from_quote-Opened cfg started preflight between fresh input db e =
    let stored : Option WireQuote = find (has_quote_id input.quote_id) db.quotes in
    elim (Result-cases (check_wire_quote started input stored)) [
      | inl (x, refused) ↦ absurd (ground arith)
      | inr (quote, usable) ↦ elim (Result-cases (preflight quote)) [
        | inl (x, failed) ↦ absurd (ground arith)
        | inr (sufficient, read) ↦ elim (Bool-cases sufficient) [
          | inr short ↦ absurd (ground arith)
          | inl enough ↦
              open_job-Opened cfg fresh input (between db)
                (transaction-eq-ok (open_job cfg fresh input) (between db) (ground arith))
        ]
      ]
    ]

check_wire_quote-IsConsumed :
    (now : ℕ) (input : PrepareInput) (db : WireDb)
    → IsConsumed input.quote_id db
    → (x : Error) × (check_wire_quote now input (find (has_quote_id input.quote_id) db.quotes)
        ≡ err x)
unfolding check_wire_quote
check_wire_quote-IsConsumed now input db c =
    rw (c.is_there, c.consumed)
      (elim (Bool-cases (leb c.quote.expires_at now)) [
        | inl late ↦ (wire_quote_expired, ground arith)
        | inr early ↦ (wire_quote_consumed, ground arith)
      ])

open_job-consumed :
    (cfg : WireSettings) (fresh : Fresh) (input : PrepareInput) (db : WireDb)
    → IsConsumed input.quote_id db
    → (x : Error) × (transaction (open_job cfg fresh input) db ≡ (err x, db))
unfolding open_job
open_job-consumed cfg fresh input db c =
    let (x, refused) = check_wire_quote-IsConsumed fresh.now input db c in
    (x, rw (refused, transaction, ◌>>=◌) refl)

-- A quote that is consumed when the transaction begins is not used again, even if the first check saw it
-- free: the request is answered with an error, and its transaction writes nothing.
pub prepare_wire_job_from_quote-consumed :
    (cfg : WireSettings) (started : ℕ) (preflight : WireQuote → Result Bool)
    (between : WireDb → WireDb) (fresh : Fresh) (input : PrepareInput) (db : WireDb)
    → IsConsumed input.quote_id (between db)
    → (x : Error) × ((prepare_wire_job_from_quote cfg started preflight between fresh input db
          ≡ (err x, db))
        ⊎ (prepare_wire_job_from_quote cfg started preflight between fresh input db
            ≡ (err x, between db)))
unfolding prepare_wire_job_from_quote
prepare_wire_job_from_quote-consumed cfg started preflight between fresh input db c =
    let stored : Option WireQuote = find (has_quote_id input.quote_id) db.quotes in
    let (x, refused) = open_job-consumed cfg fresh input (between db) c in
    elim (Result-cases (check_wire_quote started input stored)) [
      | inl (y, early) ↦ (y, inl (ground arith))
      | inr (quote, usable) ↦ elim (Result-cases (preflight quote)) [
        | inl (y, failed) ↦ (y, inr (ground arith))
        | inr (sufficient, read) ↦ elim (Bool-cases sufficient) [
          | inr short ↦ (wire_job_insufficient_balance, inr (ground arith))
          | inl enough ↦ (x, inr (ground arith))
        ]
      ]
    ]
