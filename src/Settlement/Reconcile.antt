-- ===== src/Settlement/Reconcile.antt =====
-- lib/merchant-settlement-reconcile.ts: what the chain says of submitted settlements. The reads of the
-- vault and of receipts are functions; `between` is what others commit between the reads of the rows and
-- the transaction that writes.
pub mod Outcomes
pub mod Write
pub mod Unsubmitted
pub mod Report
use ghost_protocol.Prelude.{
  ℕ, suc, ◌+◌, ◌-◌, Bool, true, false, ◌&&◌, ◌||◌, not, Option, none, some, List, [], ◌∷◌, ◌++◌,
  map, Text, codes, text_eq, option_text_eq, trim, to_lower_case, is_empty, trim_or_null, or_else,
  is_some, length, take, some_of, every, ltb, leb, ◌==◌, max, if◌then◌else◌, find, select, count,
  sum_by, update, update_many,
}
use ghost_protocol.Prelude.Sorting.{sort_by}
use ghost_protocol.Store.{
  SettlementStatus, pending, submitted, confirmed, failed, MerchantEarning, SettlementRollup,
  BatchStatus, batch_submitted, batch_confirmed, batch_failed, SettlementBatch, Db, failure,
  record_not_found, Result, ok, err, M, ◌>>=◌, ◌>>◌, return, guard, transaction,
}
use ghost_protocol.Env.{Env}

pub data ReceiptStatus : Type 0 where
  missing success reverted : ReceiptStatus

pub data ReconciliationOutcome : Type 0 where
  confirm keep_submitted requeue : ReconciliationOutcome

pub record Receipt : Type 0 where
  pub status : ReceiptStatus
  pub confirmations : ℕ

-- The chain as the reconciler reads it: `processedSettlementIds` of the vault, and receipts by hash.
pub record Chain : Type 0 where
  pub processed : Text → Bool
  pub receipt : Text → Receipt

unfoldable pub determine_settlement_reconciliation_outcome :
    Bool → Receipt → ℕ → ReconciliationOutcome
determine_settlement_reconciliation_outcome processed receipt min_confirmations =
    if processed then confirm else elim receipt.status [
      | success ↦ if leb min_confirmations receipt.confirmations then confirm else keep_submitted
      | reverted ↦ requeue
      | missing ↦ keep_submitted
    ]

pub record BatchUpdate : Type 0 where
  pub status : BatchStatus
  pub confirmed_at : Option ℕ

abbrev pub is_submitted : SettlementStatus → Bool
is_submitted submitted = true
is_submitted _ = false

abbrev pub is_confirmed : SettlementStatus → Bool
is_confirmed confirmed = true
is_confirmed _ = false

unfoldable pub derive_batch_status_update : ℕ → List SettlementStatus → Option BatchUpdate
derive_batch_status_update now [] = none
derive_batch_status_update now (s ∷ rows) =
    if some_of is_submitted (s ∷ rows)
    then some (record { status = batch_submitted; confirmed_at = none })
    else if every is_confirmed (s ∷ rows)
    then some (record { status = batch_confirmed; confirmed_at = some now })
    else some (record { status = batch_failed; confirmed_at = none })

-- The columns of a submitted rollup or earning that the loops read.
pub record SubmittedRow : Type 0 where
  pub id : Text
  pub settlement_id : Text
  pub tx_hash : Option Text
  pub allocator_batch_id : Option Text
  pub earning_count : ℕ

pub record ReconcileInput : Type 0 where
  pub min_confirmations : ℕ
  pub batch_id : Option Text
  pub settlement_id : Option Text
  pub limit : Option ℕ

-- A filter that is left out takes every row.
abbrev pub matches : Option Text → Option Text → Bool
matches none column = true
matches (some wanted) column = option_text_eq (some wanted) column

abbrev pub settlement_filter : ReconcileInput → Option Text
settlement_filter input = elim (trim_or_null input.settlement_id) [
  | none ↦ none
  | some s ↦ some (to_lower_case s)
]

-- ORDER BY three columns.
abbrev pub before_by : Env → ℕ → ℕ → Text → ℕ → ℕ → Text → Bool
before_by env a b x c d y = ltb a c || (a == c && (ltb b d || (b == d && env.locale_le x y)))

abbrev pub rollup_row : SettlementRollup → SubmittedRow
rollup_row r = record {
  id = r.id;
  settlement_id = r.settlement_id;
  tx_hash = r.tx_hash;
  allocator_batch_id = r.allocator_batch_id;
  earning_count = r.earning_count;
}

abbrev pub legacy_row : MerchantEarning → SubmittedRow
legacy_row e = record {
  id = e.id;
  settlement_id = e.settlement_id;
  tx_hash = e.tx_hash;
  allocator_batch_id = e.allocator_batch_id;
  earning_count = 1;
}

unfoldable pub submitted_rollups : Env → ReconcileInput → ℕ → Db → List SubmittedRow
submitted_rollups env input limit db = map rollup_row (
    take limit (
      sort_by
        (λ a b.
          before_by env a.updated_at a.oldest_earning_created_at a.id b.updated_at
            b.oldest_earning_created_at b.id)
        (select
          (λ r.
            is_submitted r.status
            && matches (trim_or_null input.batch_id) r.allocator_batch_id
            && matches (settlement_filter input) (some r.settlement_id))
          db.rollups)))

unfoldable pub submitted_legacy_rows : Env → ReconcileInput → ℕ → Db → List SubmittedRow
submitted_legacy_rows env input limit db = map legacy_row (
    take limit (
      sort_by (λ a b. before_by env a.updated_at a.created_at a.id b.updated_at b.created_at b.id)
        (select
          (λ e.
            is_submitted e.status
            && not (is_some e.settlement_rollup_id)
            && matches (trim_or_null input.batch_id) e.allocator_batch_id
            && matches (settlement_filter input) (some e.settlement_id))
          db.earnings)))

-- The keys of the receipt cache: `txHash?.trim().toLowerCase() || null`.
unfoldable pub cached_hashes : List SubmittedRow → List Text
cached_hashes [] = []
cached_hashes (r ∷ rows) =
    let rest = cached_hashes rows in
    elim (trim_or_null r.tx_hash) [ none ↦ rest | some t ↦ to_lower_case t ∷ rest ]

abbrev pub no_receipt : Receipt
no_receipt = record { status = missing; confirmations = 0 }

-- `row.txHash ? receiptCache.get(row.txHash.toLowerCase()) : undefined`.
unfoldable pub receipt_of : Chain → List Text → Option Text → Receipt
receipt_of chain hashes none = no_receipt
receipt_of chain hashes (some t) =
    if is_empty t
    then no_receipt
    else if some_of (text_eq (to_lower_case t)) hashes
    then chain.receipt (to_lower_case t)
    else no_receipt

-- The counters and lists of the loops. A batch is in `requeued_batches` once for each row of it that is
-- put back.
pub record Tally : Type 0 where
  pub confirmed_ids : List Text
  pub requeued_ids : List Text
  pub confirmed_count : ℕ
  pub requeued_count : ℕ
  pub still_submitted_count : ℕ
  pub touched : List Text
  pub requeued_batches : List Text

-- `if (row.allocatorBatchId) touchedBatchIds.add(...)`; a Set keeps the first.
unfoldable pub touch : Option Text → List Text → List Text
touch none ids = ids
touch (some b) ids =
    if is_empty b then ids else if some_of (text_eq b) ids then ids else ids ++ b ∷ []

unfoldable pub note_requeued : Option Text → List Text → List Text
note_requeued none ids = ids
note_requeued (some b) ids = if is_empty b then ids else b ∷ ids

unfoldable pub handle_outcome : SubmittedRow → ReconciliationOutcome → Tally → Tally
unfolding touch note_requeued
handle_outcome row confirm t = record t {
  confirmed_count = suc t.confirmed_count;
  confirmed_ids = t.confirmed_ids ++ row.id ∷ [];
  touched = touch row.allocator_batch_id t.touched;
}
handle_outcome row requeue t = record t {
  requeued_count = suc t.requeued_count;
  requeued_ids = t.requeued_ids ++ row.id ∷ [];
  touched = touch row.allocator_batch_id t.touched;
  requeued_batches = note_requeued row.allocator_batch_id t.requeued_batches;
}
handle_outcome row keep_submitted t = record t {
  still_submitted_count = suc t.still_submitted_count;
  touched = touch row.allocator_batch_id t.touched;
}

abbrev pub outcome_of : Chain → List Text → ℕ → SubmittedRow → ReconciliationOutcome
outcome_of chain hashes min row =
    determine_settlement_reconciliation_outcome (chain.processed row.settlement_id)
      (receipt_of chain hashes row.tx_hash) min

unfoldable pub handle_rows : Chain → List Text → ℕ → List SubmittedRow → Tally → Tally
unfolding handle_outcome receipt_of determine_settlement_reconciliation_outcome
handle_rows chain hashes min [] t = t
handle_rows chain hashes min (row ∷ rows) t =
    handle_rows chain hashes min rows (handle_outcome row (outcome_of chain hashes min row) t)

-- The second loop begins with empty id lists of its own, and with the counters and batches of the first.
abbrev pub empty_tally : Tally
empty_tally = record {
  confirmed_ids = [];
  requeued_ids = [];
  confirmed_count = 0;
  requeued_count = 0;
  still_submitted_count = 0;
  touched = [];
  requeued_batches = [];
}

abbrev pub next_lists : Tally → Tally
next_lists t = record t { confirmed_ids = []; requeued_ids = [] }

abbrev pub is_in : List Text → Text → Bool
is_in ids id = some_of (text_eq id) ids

abbrev pub is_in_option : List Text → Option Text → Bool
is_in_option ids none = false
is_in_option ids (some id) = is_in ids id
