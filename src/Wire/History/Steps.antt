-- ===== src/Wire/History/Steps.antt =====
-- The calls that write quotes: a new quote, and a job that consumes one.
use ghost_protocol.Prelude.{
  ℕ, ◌≡◌, refl, sym, arith, Bool, true, false, not, some, List, ◌∷◌, Text, find, update, All,
  All-map, All-update, Bool-cases, inl, inr, find-update_kept, some_of-find, some_of, text_eq,
  text_eq_iff, find-update_self, All-find, if-keeps,
}
use ghost_protocol.Store.{
  ok, Result, transaction, transaction-keeps, >>=-eq-ok, return, ◌>>=◌, on_ok-keeps,
}
use ghost_protocol.Wire.Schema.{WireDb, WireJob, WireQuote}
use ghost_protocol.Wire.History.Evolves.{Backed, IsPriced, Evolves, Evolves-refl, Evolves-trans}
use ghost_protocol.Wire.Tables.{create_quote, has_quote_id, W}
use ghost_protocol.Wire.Quotes.{
  create_wire_quote, QuoteInput, quote_of, PrepareInput, QuoteAnswer, quote_answer, IsUsable,
  check_wire_quote,
}
use ghost_protocol.Wire.Config.{WireSettings}
use mathlib.Core.Path.{subst}
use ghost_protocol.Wire.Prepare.{
  Fresh, job_of, consume_quote, prepare_wire_job_from_quote, open_job,
}
use ghost_protocol.Wire.Prepare.Once.{Opened, open_job-Opened}

-- A row with a new key hides no other.
find-fresh :
    {A : Type 0} (key : A → Text) (id : Text) (new : A) (rows : List A) {row : A}
    → some_of (λ other. text_eq (key other) (key new)) rows ≡ false
    → find (λ other. text_eq (key other) id) rows ≡ some row
    → find (λ other. text_eq (key other) id) (new ∷ rows) ≡ some row
unfolding find
find-fresh key id new rows {row} fresh there = elim (Bool-cases (text_eq (key new) id)) [
  | inr other ↦ rw (other, find) there
  | inl hit ↦
      let same : key new ≡ id = (text_eq_iff (key new) id).0 hit in
      let taken : some_of (λ other. text_eq (key other) (key new)) rows ≡ true =
        subst (λ k. some_of (λ other. text_eq (key other) k) rows ≡ true) (sym same)
          (some_of-find (λ other. text_eq (key other) id) rows there) in
      absurd (ground arith)
]

create_quote-Evolves :
    (cfg : WireSettings) (new : WireQuote) (db : WireDb) {a : WireQuote} {db' : WireDb}
    → IsPriced cfg new
    → create_quote new db ≡ ok (a, db')
    → Evolves cfg db db'
unfolding create_quote
create_quote-Evolves cfg new db {a} {db'} priced e =
    let fresh : some_of (has_quote_id new.quote_id) db.quotes ≡ false = ground arith in
    let written : record db { quotes = new ∷ db.quotes } ≡ db' = ground arith in
    subst (Evolves cfg db) written (record {
      consumed = λ id c. record {
        quote = c.quote;
        at = c.at;
        is_there = find-fresh (λ q. q.quote_id) id new db.quotes {row = c.quote} fresh c.is_there;
        consumed = c.consumed;
      };
      kept = λ id job there. (job, there, refl);
      sound = λ s. record {
        priced = (priced, s.priced);
        backed =
            All-map (Backed cfg db.quotes) (Backed cfg (new ∷ db.quotes)) db.jobs
              (λ job b. record {
                quote = b.quote;
                is_there =
                    find-fresh (λ q. q.quote_id) job.quote_id new db.quotes {row = b.quote} fresh
                      b.is_there;
                consumed = b.consumed;
                principal = b.principal;
                fee = b.fee;
                reserve = b.reserve;
                provider = b.provider;
                evaluator = b.evaluator;
              })
              s.backed;
      };
    })

pub create_wire_quote-Evolves :
    (cfg : WireSettings) (id : Text) (now : ℕ) (input : QuoteInput) (db : WireDb)
    → Evolves cfg db (transaction (create_wire_quote cfg id now input) db).1
unfolding create_wire_quote
create_wire_quote-Evolves cfg id now input db =
    let new : WireQuote = quote_of cfg id now input in
    let answer : WireQuote → W QuoteAnswer = λ quote. return (quote_answer cfg quote) in
    transaction-keeps (Evolves cfg db) (create_quote new >>= answer) db (Evolves-refl cfg db)
      (λ a db' e.
        let (quote, db₁, created, rest) = >>=-eq-ok (create_quote new) answer db e in
        let same : db₁ ≡ db' = ground arith in
        subst (Evolves cfg db) same (create_quote-Evolves cfg new db {db' = db₁} refl created))

-- A quote that is there is there, consumed or not, after the update that consumes one.
module _ (now : ℕ) (input : PrepareInput) (spent : WireQuote) (quotes : List WireQuote) where
  abbrev after : List WireQuote
  after = update (has_quote_id spent.quote_id) (consume_quote now input spent) quotes

  consume-IsConsumed :
      (id : Text) (quote : WireQuote) (at : ℕ)
      → find (has_quote_id id) quotes ≡ some quote
      → quote.consumed_at ≡ some at
      → (quote' : WireQuote) × (at' : ℕ) × (find (has_quote_id id) after ≡ some quote')
        × (quote'.consumed_at ≡ some at')
  consume-IsConsumed id quote at there consumed =
      elim (find-update_kept (has_quote_id spent.quote_id) (has_quote_id id)
        (consume_quote now input spent) quotes (λ x. refl) there) [
          | inl same ↦ (quote, at, same, consumed)
          | inr used ↦ (consume_quote now input spent quote, now, used, refl)
        ]

  consume-Backed :
      (cfg : WireSettings) (job : WireJob) → Backed cfg quotes job → Backed cfg after job
  consume-Backed cfg job b =
      elim (find-update_kept (has_quote_id spent.quote_id) (has_quote_id job.quote_id)
        (consume_quote now input spent) quotes (λ x. refl) b.is_there) [
          | inl same ↦ record {
            quote = b.quote;
            is_there = same;
            consumed = b.consumed;
            principal = b.principal;
            fee = b.fee;
            reserve = b.reserve;
            provider = b.provider;
            evaluator = b.evaluator;
          }
          | inr used ↦ record {
            quote = consume_quote now input spent b.quote;
            is_there = used;
            consumed = refl;
            principal = b.principal;
            fee = b.fee;
            reserve = b.reserve;
            provider = b.provider;
            evaluator = b.evaluator;
          }
        ]

  consume-IsPriced : (cfg : WireSettings) → All (IsPriced cfg) quotes → All (IsPriced cfg) after
  consume-IsPriced cfg h =
      All-update (IsPriced cfg) (has_quote_id spent.quote_id) (consume_quote now input spent) quotes
        (λ x hit p. p) h

new_job-Backed :
    (cfg : WireSettings) (fresh : Fresh) (input : PrepareInput) (quote : WireQuote)
    (quotes : List WireQuote)
    → find (has_quote_id quote.quote_id) quotes ≡ some quote
    → IsUsable fresh.now input quote
    → IsPriced cfg quote
    → Backed cfg (after fresh.now input quote quotes) (job_of cfg fresh input quote)
new_job-Backed cfg fresh input quote quotes there usable priced = record {
  quote = consume_quote fresh.now input quote quote;
  is_there =
      find-update_self (has_quote_id quote.quote_id) (consume_quote fresh.now input quote) quotes
        (λ x h. h) there;
  consumed = refl;
  principal = refl;
  fee = priced;
  reserve = refl;
  provider = usable.provider;
  evaluator = usable.evaluator;
}

Opened-Evolves :
    (cfg : WireSettings) (fresh : Fresh) (input : PrepareInput) (db : WireDb) {job : WireJob}
    {db' : WireDb}
    → Opened cfg fresh input db job db'
    → Evolves cfg db db'
Opened-Evolves cfg fresh input db {job} {db'} o =
    let there : find (has_quote_id o.quote.quote_id) db.quotes ≡ some o.quote =
      subst (λ key. find (has_quote_id key) db.quotes ≡ some o.quote) (sym o.same_id) o.was_there in
    let new : WireJob = job_of cfg fresh input o.quote in
    record {
      consumed = λ id c.
          let (quote, at, found_there, consumed) =
            consume-IsConsumed fresh.now input o.quote db.quotes id c.quote c.at c.is_there
              c.consumed in
          record {
            quote = quote;
            at = at;
            is_there = rw o.quotes found_there;
            consumed = consumed;
          };
      kept = λ id old old_there. (
        old,
        rw (o.jobs, o.is_job)
            (find-fresh (λ j. j.job_id) id new db.jobs {row = old} o.new_job_id old_there),
        refl,
      );
      sound = λ s. record {
        priced =
            subst (All (IsPriced cfg)) (sym o.quotes)
              (consume-IsPriced fresh.now input o.quote db.quotes cfg s.priced);
        backed =
            rw (o.quotes, o.jobs, o.is_job)
              (
                new_job-Backed cfg fresh input o.quote db.quotes there o.usable (
                    All-find (IsPriced cfg) (has_quote_id o.quote.quote_id) db.quotes s.priced
                      there),
                All-map (Backed cfg db.quotes) _ db.jobs
                    (consume-Backed fresh.now input o.quote db.quotes cfg) s.backed,
              );
      };
    }

pub prepare-Evolves :
    (cfg : WireSettings) (started : ℕ) (preflight : WireQuote → Result Bool)
    (between : WireDb → WireDb) (fresh : Fresh) (input : PrepareInput) (db : WireDb)
    → Evolves cfg db (between db)
    → Evolves cfg db (prepare_wire_job_from_quote cfg started preflight between fresh input db).1
unfolding prepare_wire_job_from_quote
prepare-Evolves cfg started preflight between fresh input db others =
    let P : Result WireJob × WireDb → Type 0 = λ answer. Evolves cfg db answer.1 in
    on_ok-keeps P (check_wire_quote started input (find (has_quote_id input.quote_id) db.quotes)) db
      _ (λ x. Evolves-refl cfg db)
      (λ quote.
        on_ok-keeps P (preflight quote) (between db) _ (λ x. others)
          (λ sufficient. if-keeps P (not sufficient) others (
            transaction-keeps (Evolves cfg db) (open_job cfg fresh input) (between db) others
              (λ job db' e. Evolves-trans cfg db (between db) db' others (
                Opened-Evolves cfg fresh input (between db)
                  (open_job-Opened cfg fresh input (between db) {job = job} {db' = db'} e))))))
