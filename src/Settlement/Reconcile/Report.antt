-- ===== src/Settlement/Reconcile/Report.antt =====
-- lib/merchant-settlement-reconcile.ts: the counters of its answer.
use mathlib.Core.Path.{subst}
use ghost_protocol.Prelude.{
  ℕ, ◌+◌, ◌-◌, ◌≤◌, ◌≡◌, List, [], ◌∷◌, ◌++◌, length, length-map, length-take, take, map, Text, max,
  or_else, arith, count, Bool, not, ◌&&◌, ◌||◌, leb, length-append, sym, true, false,
}
use ghost_protocol.Store.{Db, ok, M, ◌>>=◌, return, >>=-eq-ok, ok-value, transaction-eq-ok}
use ghost_protocol.Env.{Env}
use ghost_protocol.Settlement.Reconcile.Outcomes.{is_reverted}
use ghost_protocol.Settlement.Reconcile.{
  receipt_of, ReceiptStatus, missing, success, reverted,
  determine_settlement_reconciliation_outcome, rollup_row, legacy_row, Chain, SubmittedRow,
  ReconcileInput, submitted_rollups, submitted_legacy_rows, cached_hashes, Tally, handle_outcome,
  outcome_of, handle_rows, empty_tally, next_lists,
}
use ghost_protocol.Settlement.Reconcile.Write.{
  write_reconciliation, ReconcileResult, limit_of, report_of, reconcile_merchant_settlement_rows,
}

abbrev is_success : ReceiptStatus → Bool
is_success success = true
is_success missing = false
is_success reverted = false

-- A row that the vault has processed, or whose transaction succeeded and is confirmed often enough.
abbrev pub is_paid : Chain → List Text → ℕ → SubmittedRow → Bool
is_paid chain hashes min row =
    let r = receipt_of chain hashes row.tx_hash in
    chain.processed row.settlement_id || (is_success r.status && leb min r.confirmations)

-- A row that the vault has not processed, and whose transaction was reverted.
abbrev pub is_lost : Chain → List Text → SubmittedRow → Bool
is_lost chain hashes row =
    not (chain.processed row.settlement_id)
    && is_reverted (receipt_of chain hashes row.tx_hash).status

abbrev pub is_waiting : Chain → List Text → ℕ → SubmittedRow → Bool
is_waiting chain hashes min row =
    not (is_paid chain hashes min row) && not (is_lost chain hashes row)

-- The counters of `t'` are those of `t` and the rows, each under the verdict that the chain has for it.
record Counts (chain : Chain) (hashes : List Text) (min : ℕ) (rows : List SubmittedRow)
    (t t' : Tally) : Type 0 where
  paid : t'.confirmed_count ≡ t.confirmed_count + count (is_paid chain hashes min) rows
  lost : t'.requeued_count ≡ t.requeued_count + count (is_lost chain hashes) rows
  waiting :
      t'.still_submitted_count ≡ t.still_submitted_count + count (is_waiting chain hashes min) rows

handle_rows-Counts :
    (chain : Chain) (hashes : List Text) (min : ℕ) (rows : List SubmittedRow) (t : Tally)
    → Counts chain hashes min rows t (handle_rows chain hashes min rows t)
unfolding handle_rows handle_outcome determine_settlement_reconciliation_outcome count
handle_rows-Counts chain hashes min [] t = record {
  paid = omega arith;
  lost = omega arith;
  waiting = omega arith;
}
handle_rows-Counts chain hashes min (row ∷ rows) t =
    let o = outcome_of chain hashes min row in
    let rest = handle_rows-Counts chain hashes min rows (handle_outcome row o t) in
    record {
      paid = ground (arith, rest.paid);
      lost = ground (arith, rest.lost);
      waiting = ground (arith, rest.waiting);
    }

length-map-take : {A B : Type 0} (f : A → B) (n : ℕ) (xs : List A) → length (map f (take n xs)) ≤ n
length-map-take f n xs = omega (arith, length-map f (take n xs), length-take n xs)

submitted_rollups-length :
    (env : Env) (input : ReconcileInput) (limit : ℕ) (db : Db)
    → length (submitted_rollups env input limit db) ≤ limit
unfolding submitted_rollups
submitted_rollups-length env input limit db = length-map-take rollup_row limit _

submitted_legacy_rows-length :
    (env : Env) (input : ReconcileInput) (limit : ℕ) (db : Db)
    → length (submitted_legacy_rows env input limit db) ≤ limit
unfolding submitted_legacy_rows
submitted_legacy_rows-length env input limit db = length-map-take legacy_row limit _

-- The rollups that are read, and as many earnings of no rollup as the limit leaves.
abbrev pub selected_rows : Env → ReconcileInput → Db → List SubmittedRow
unfolding submitted_rollups submitted_legacy_rows
selected_rows env input db =
    let rollups = submitted_rollups env input (limit_of input) db in
    rollups ++ submitted_legacy_rows env input (limit_of input - length rollups) db

pub record CountsVerdicts (chain : Chain) (min : ℕ) (rows : List SubmittedRow) (r : ReconcileResult)
    : Type 0 where
  selected : r.selected_count ≡ length rows
  paid : r.confirmed_count ≡ count (is_paid chain (cached_hashes rows) min) rows
  lost : r.requeued_count ≡ count (is_lost chain (cached_hashes rows)) rows
  waiting : r.still_submitted_count ≡ count (is_waiting chain (cached_hashes rows) min) rows

count-append :
    (p : SubmittedRow → Bool) (xs ys : List SubmittedRow)
    → count p (xs ++ ys) ≡ count p xs + count p ys
unfolding count
count-append p [] ys = omega arith
count-append p (x ∷ xs) ys = omega (arith, count-append p xs ys)

-- If reconcileMerchantSettlementRows answers, it counts the rows that it read, which are at most its
-- limit, as confirmed those that the vault has processed or a successful receipt has confirmed often
-- enough, as put back those that are not processed and were reverted, and as still submitted the
-- others.
pub reconcile_merchant_settlement_rows-counts :
    (env : Env) (chain : Chain) (between : Db → Db) (now : ℕ) (input : ReconcileInput) (db : Db)
    {r : ReconcileResult} {db' : Db}
    → reconcile_merchant_settlement_rows env chain between now input db ≡ (ok r, db')
    → CountsVerdicts chain input.min_confirmations (selected_rows env input db) r
      × (r.selected_count ≤ max 1 (or_else input.limit 100))
unfolding reconcile_merchant_settlement_rows
reconcile_merchant_settlement_rows-counts env chain between now input db {r} {db'} e =
    let limit = limit_of input in
    let rollups = submitted_rollups env input limit db in
    let legacy = submitted_legacy_rows env input (limit - length rollups) db in
    let hashes = cached_hashes (rollups ++ legacy) in
    let first = handle_rows chain hashes input.min_confirmations rollups empty_tally in
    let last = handle_rows chain hashes input.min_confirmations legacy (next_lists first) in
    let body : M ℕ = write_reconciliation now rollups first last in
    let answer : ℕ → M ReconcileResult =
      λ n. return (report_of (length rollups + length legacy) last n) in
    let (n, db₁, written, answered) =
      >>=-eq-ok body answer (between db) (transaction-eq-ok (body >>= answer) (between db) e) in
    let v : report_of (length rollups + length legacy) last n ≡ r = ok-value answered in
    let a = handle_rows-Counts chain hashes input.min_confirmations rollups empty_tally in
    let b = handle_rows-Counts chain hashes input.min_confirmations legacy (next_lists first) in
    let whole : CountsVerdicts chain input.min_confirmations (rollups ++ legacy)
        (report_of (length rollups + length legacy) last n) =
      record {
        selected = sym (length-append rollups legacy);
        paid = omega (
          arith,
          a.paid,
          b.paid,
          count-append (is_paid chain hashes input.min_confirmations) rollups legacy,
        );
        lost = omega (arith, a.lost, b.lost, count-append (is_lost chain hashes) rollups legacy);
        waiting = omega (
          arith,
          a.waiting,
          b.waiting,
          count-append (is_waiting chain hashes input.min_confirmations) rollups legacy,
        );
      } in
    let c = submitted_rollups-length env input limit db in
    let d = submitted_legacy_rows-length env input (limit - length rollups) db in
    let bounded : length rollups + length legacy ≤ limit = omega (arith, c, d) in
    (
      subst (CountsVerdicts chain input.min_confirmations (rollups ++ legacy)) v whole,
      subst (λ x. x.selected_count ≤ limit) v bounded,
    )
