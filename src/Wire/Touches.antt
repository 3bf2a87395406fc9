-- ===== src/Wire/Touches.antt =====
-- Operations that leave the quotes and the terms of every job.
pub mod Steps
use ghost_protocol.Prelude.{
  ◌∙◌, sym, ℕ, ◌≡◌, refl, Bool, true, false, Option, none, some, List, [], ◌∷◌, Text, find, update,
  Bool-cases, inl, inr, if◌then◌else◌, All, text_eq, arith, ap,
}
use ghost_protocol.Wire.Schema.{WireDb, WireJob}
use mathlib.Core.Path.{subst}
use ghost_protocol.Wire.Tables.{has_job_id}

-- The identity of a job, its parties, and its amounts.
pub record JobTerms : Type 0 where
  pub id : Text
  pub job_id : Text
  pub quote_id : Text
  pub chain_id : ℕ
  pub client_address : Text
  pub provider_address : Text
  pub evaluator_address : Text
  pub contract_budget_amount : ℕ
  pub principal_amount : ℕ
  pub protocol_fee_amount : ℕ
  pub network_reserve_amount : ℕ
  pub spec_hash : Text

abbrev pub terms_of : WireJob → JobTerms
terms_of job = record {
  id = job.id;
  job_id = job.job_id;
  quote_id = job.quote_id;
  chain_id = job.chain_id;
  client_address = job.client_address;
  provider_address = job.provider_address;
  evaluator_address = job.evaluator_address;
  contract_budget_amount = job.contract_budget_amount;
  principal_amount = job.principal_amount;
  protocol_fee_amount = job.protocol_fee_amount;
  network_reserve_amount = job.network_reserve_amount;
  spec_hash = job.spec_hash;
}

abbrev pub SameTerms : WireJob → WireJob → Type 0
SameTerms job job' = terms_of job' ≡ terms_of job

-- The same jobs in the same order, each with its terms.
abbrev pub SameJobs : List WireJob → List WireJob → Type 0
SameJobs [] [] = Unit
SameJobs [] (b ∷ bs) = ⊥
SameJobs (a ∷ js) [] = ⊥
SameJobs (a ∷ js) (b ∷ bs) = SameTerms a b × SameJobs js bs

SameJobs-refl : (js : List WireJob) → SameJobs js js
SameJobs-refl [] = tt
SameJobs-refl (j ∷ js) = (refl, SameJobs-refl js)

SameJobs-update :
    (p : WireJob → Bool) (f : WireJob → WireJob) (js : List WireJob)
    → ((job : WireJob) → SameTerms job (f job))
    → SameJobs js (update p f js)
unfolding update
SameJobs-update p f [] keep = tt
SameJobs-update p f (j ∷ js) keep = elim (Bool-cases (p j)) [
  | inl hit ↦ rw hit (keep j, SameJobs-refl js)
  | inr miss ↦ rw miss (refl, SameJobs-update p f js keep)
]

pub SameJobs-All {ℓ} :
    (P : WireJob → Type ℓ) (js ks : List WireJob)
    → ((a b : WireJob) → SameTerms a b → P a → P b)
    → SameJobs js ks
    → All P js
    → All P ks
SameJobs-All P [] [] keep same h = tt
SameJobs-All P [] (k ∷ ks) keep same h = absurd same
SameJobs-All P (j ∷ js) [] keep same h = absurd same
SameJobs-All P (j ∷ js) (k ∷ ks) keep (s, same) (h, hs) =
    (keep j k s h, SameJobs-All P js ks keep same hs)

pub SameJobs-find :
    (id : Text) (js ks : List WireJob) {job : WireJob}
    → SameJobs js ks
    → find (has_job_id id) js ≡ some job
    → (job' : WireJob) × (find (has_job_id id) ks ≡ some job') × SameTerms job job'
unfolding find
SameJobs-find id [] [] same there = cc
SameJobs-find id [] (k ∷ ks) same there = absurd same
SameJobs-find id (j ∷ js) [] same there = absurd same
SameJobs-find id (j ∷ js) (k ∷ ks) {job} (s, same) there = elim (Bool-cases (text_eq j.job_id id)) [
  | inl hit ↦ (
    k,
    rw (ap (λ t. t.job_id) s, hit, find) refl,
    subst (λ a. SameTerms a k) {x = j} {y = job} (ground arith) s,
  )
  | inr miss ↦
      let (job', there', terms) = SameJobs-find id js ks {job = job} same (ground arith) in
      (job', rw (ap (λ t. t.job_id) s, miss, find) there', terms)
]

pub record Touches (db db' : WireDb) : Type 0 where
  pub quotes : db'.quotes ≡ db.quotes
  pub jobs : SameJobs db.jobs db'.jobs

pub Touches-refl : (db : WireDb) → Touches db db
Touches-refl db = record { quotes = refl; jobs = SameJobs-refl db.jobs }

-- Writes elsewhere.
pub Touches-apart : (db db' : WireDb) → db'.quotes ≡ db.quotes → db'.jobs ≡ db.jobs → Touches db db'
Touches-apart db db' q j = record {
  quotes = q;
  jobs = subst (SameJobs db.jobs) (sym j) (SameJobs-refl db.jobs);
}

-- The update of one job.
pub Touches-update :
    (p : WireJob → Bool) (f : WireJob → WireJob) (db db' : WireDb)
    → ((job : WireJob) → SameTerms job (f job))
    → db'.quotes ≡ db.quotes
    → db'.jobs ≡ update p f db.jobs
    → Touches db db'
Touches-update p f db db' keep q j = record {
  quotes = q;
  jobs = subst (SameJobs db.jobs) (sym j) (SameJobs-update p f db.jobs keep);
}
