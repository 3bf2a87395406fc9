-- ===== src/Wire/History/Evolves.antt =====
-- What every call of lib/ghostwire-store.ts keeps: consumed quotes, the terms of jobs, and that each job is
-- backed by its quote.
use ghost_protocol.Prelude.{
  ◌∙◌, sym, ap, ◌≡◌, refl, true, some, List, Text, find, All, ◌∙◌, text_eq, is_some,
}
use ghost_protocol.Wire.Schema.{WireDb, WireJob, WireQuote}
use ghost_protocol.Wire.Touches.{Touches, SameTerms, SameJobs-find, SameJobs-All}
use ghost_protocol.Wire.Config.{WireSettings}
use ghost_protocol.Wire.Tables.{has_quote_id, has_job_id}
use ghost_protocol.Wire.Terms.{calculate_protocol_fee_amount}
use ghost_protocol.Wire.Prepare.Once.{IsConsumed}
use mathlib.Core.Path.{subst}

-- The amounts of a job are those of a consumed quote, with the fee of the settings.
pub record Backed (cfg : WireSettings) (quotes : List WireQuote) (job : WireJob) : Type 0 where
  pub quote : WireQuote
  pub is_there : find (has_quote_id job.quote_id) quotes ≡ some quote
  pub consumed : is_some quote.consumed_at ≡ true
  pub principal : job.principal_amount ≡ quote.principal_amount
  pub fee : job.protocol_fee_amount ≡ calculate_protocol_fee_amount cfg job.principal_amount
  pub reserve : job.network_reserve_amount ≡ quote.network_reserve_amount
  pub provider : text_eq quote.provider_address job.provider_address ≡ true
  pub evaluator : text_eq quote.evaluator_address job.evaluator_address ≡ true

abbrev pub IsPriced : WireSettings → WireQuote → Type 0
IsPriced cfg quote =
    quote.protocol_fee_amount ≡ calculate_protocol_fee_amount cfg quote.principal_amount

pub record IsSound (cfg : WireSettings) (db : WireDb) : Type 0 where
  pub priced : All (IsPriced cfg) db.quotes
  pub backed : All (Backed cfg db.quotes) db.jobs

pub record Evolves (cfg : WireSettings) (db db' : WireDb) : Type 0 where
  pub consumed : (id : Text) → IsConsumed id db → IsConsumed id db'
  pub kept :
      (id : Text)
      → (job : WireJob) → find (has_job_id id) db.jobs ≡ some job
      → (job' : WireJob) × (find (has_job_id id) db'.jobs ≡ some job') × SameTerms job job'
  pub sound : IsSound cfg db → IsSound cfg db'

pub Evolves-refl : (cfg : WireSettings) (db : WireDb) → Evolves cfg db db
Evolves-refl cfg db = record {
  consumed = λ id c. c;
  kept = λ id job there. (job, there, refl);
  sound = λ s. s;
}

pub Evolves-trans :
    (cfg : WireSettings) (a b c : WireDb) → Evolves cfg a b → Evolves cfg b c → Evolves cfg a c
Evolves-trans cfg a b c r s = record {
  consumed = λ id h. s.consumed id (r.consumed id h);
  kept = λ id job there.
      let (job₁, there₁, same₁) = r.kept id job there in
      let (job₂, there₂, same₂) = s.kept id job₁ there₁ in (job₂, there₂, same₂ ∙ same₁);
  sound = λ h. s.sound (r.sound h);
}

Backed-SameTerms :
    (cfg : WireSettings) (quotes : List WireQuote) (a b : WireJob)
    → SameTerms a b
    → Backed cfg quotes a
    → Backed cfg quotes b
Backed-SameTerms cfg quotes a b same h = record {
  quote = h.quote;
  is_there =
      subst (λ t. find (has_quote_id t.quote_id) quotes ≡ some h.quote) (sym same) h.is_there;
  consumed = h.consumed;
  principal = ap (λ t. t.principal_amount) same ∙ h.principal;
  fee =
      subst (λ t. t.protocol_fee_amount ≡ calculate_protocol_fee_amount cfg t.principal_amount)
        (sym same) h.fee;
  reserve = ap (λ t. t.network_reserve_amount) same ∙ h.reserve;
  provider =
      subst (λ t. text_eq h.quote.provider_address t.provider_address ≡ true) (sym same) h.provider;
  evaluator =
      subst (λ t. text_eq h.quote.evaluator_address t.evaluator_address ≡ true) (sym same)
        h.evaluator;
}

pub Touches-Evolves : (cfg : WireSettings) (db db' : WireDb) → Touches db db' → Evolves cfg db db'
Touches-Evolves cfg db db' t = record {
  consumed = λ id c. record {
    quote = c.quote;
    at = c.at;
    is_there = rw t.quotes c.is_there;
    consumed = c.consumed;
  };
  kept = λ id job there. SameJobs-find id db.jobs db'.jobs {job = job} t.jobs there;
  sound = λ s. record {
    priced = subst (All (IsPriced cfg)) (sym t.quotes) s.priced;
    backed =
        subst (λ quotes. All (Backed cfg quotes) db'.jobs) (sym t.quotes)
          (SameJobs-All (Backed cfg db.quotes) db.jobs db'.jobs (Backed-SameTerms cfg db.quotes)
            t.jobs s.backed);
  };
}
