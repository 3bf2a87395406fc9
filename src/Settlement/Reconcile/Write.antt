-- ===== src/Settlement/Reconcile/Write.antt =====
-- lib/merchant-settlement-reconcile.ts, the transaction: rows move on by guarded updates whose counts are
-- checked, and each batch that was touched gets the status of its rows.
use ghost_protocol.Prelude.{
  ℕ, suc, ◌+◌, ◌-◌, Bool, ◌&&◌, not, none, some, List, [], ◌∷◌, ◌++◌, map, Text, String, codes,
  text_eq, option_text_eq, is_some, length, ◌==◌, max, or_else, if◌then◌else◌, find, select, count,
  sum_by, update, update_many,
}
use ghost_protocol.Store.{
  SettlementStatus, pending, confirmed, failed, MerchantEarning, SettlementRollup, SettlementBatch,
  Db, failure, record_not_found, Result, ok, err, M, ◌>>=◌, ◌>>◌, return, guard, transaction,
}
use ghost_protocol.Env.{Env}
use ghost_protocol.Settlement.Reconcile.{
  Chain, SubmittedRow, ReconcileInput, BatchUpdate, is_submitted, derive_batch_status_update,
  submitted_rollups, submitted_legacy_rows, cached_hashes, Tally, handle_rows, empty_tally,
  next_lists, is_in, is_in_option,
}

-- An `updateMany` of earnings or of rollups, answering its count.
unfoldable pub update_earnings :
    (MerchantEarning → Bool) → (MerchantEarning → MerchantEarning) → M ℕ
update_earnings p f db =
    ok (count p db.earnings, record db { earnings = update_many p f db.earnings })

unfoldable pub update_rollups :
    (SettlementRollup → Bool) → (SettlementRollup → SettlementRollup) → M ℕ
update_rollups p f db = ok (count p db.rollups, record db { rollups = update_many p f db.rollups })

abbrev pub confirm_rollup : ℕ → SettlementRollup → SettlementRollup
confirm_rollup now r = record r { status = confirmed; failure_code = none; updated_at = now }

abbrev pub requeue_rollup : ℕ → SettlementRollup → SettlementRollup
requeue_rollup now r = record r {
  status = failed;
  allocator_batch_id = none;
  tx_hash = none;
  failure_code = some (codes "RECONCILE_REQUEUED");
  updated_at = now;
}

abbrev pub confirm_earning : ℕ → MerchantEarning → MerchantEarning
confirm_earning now e = record e { status = confirmed; failure_code = none; updated_at = now }

abbrev pub requeue_earning : ℕ → MerchantEarning → MerchantEarning
requeue_earning now e = record e {
  status = pending;
  settlement_rollup_id = none;
  allocator_batch_id = none;
  tx_hash = none;
  failure_code = some (codes "RECONCILE_REQUEUED");
  updated_at = now;
}

-- `updateMany` for an earning that stands alone leaves the rollup's column, which is null, as it is.
abbrev pub requeue_legacy : ℕ → MerchantEarning → MerchantEarning
requeue_legacy now e = record e {
  status = pending;
  allocator_batch_id = none;
  tx_hash = none;
  failure_code = some (codes "RECONCILE_REQUEUED");
  updated_at = now;
}

abbrev pub submitted_in : List Text → MerchantEarning → Bool
submitted_in ids e = is_in ids e.id && is_submitted e.status

abbrev pub member_in : List Text → MerchantEarning → Bool
member_in ids e = is_in_option ids e.settlement_rollup_id && is_submitted e.status

abbrev pub rollup_in : List Text → SettlementRollup → Bool
rollup_in ids r = is_in ids r.id && is_submitted r.status

-- The earnings that the rollups of these ids count.
abbrev pub earning_count_of : List Text → List SubmittedRow → ℕ
earning_count_of ids rollups = sum_by (λ r. if is_in ids r.id then r.earning_count else 0) rollups

-- One `if (ids.length > 0)` block for rollups and their members.
unfoldable pub move_rollups :
    (SettlementRollup → SettlementRollup)
    → (MerchantEarning → MerchantEarning)
    → String
    → String
    → List Text
    → ℕ
    → M (Unit {0})
unfolding update_rollups update_earnings
move_rollups f g message member_message [] expected = return tt
move_rollups f g message member_message (id ∷ ids) expected = do
  rollups ← update_rollups (rollup_in (id ∷ ids)) f
  guard (rollups == length (id ∷ ids)) (failure message)
  earnings ← update_earnings (member_in (id ∷ ids)) g
  guard (earnings == expected) (failure member_message)

-- One `if (ids.length > 0)` block for earnings that stand alone.
unfoldable pub move_earnings :
    (MerchantEarning → MerchantEarning) → String → List Text → M (Unit {0})
unfolding update_earnings
move_earnings g message [] = return tt
move_earnings g message (id ∷ ids) = do
  earnings ← update_earnings (submitted_in (id ∷ ids)) g
  guard (earnings == length (id ∷ ids)) (failure message)

-- FAILED once for each row of the batch that was put back.
abbrev pub failed_rows : Text → List Text → List SettlementStatus
failed_rows batch [] = []
failed_rows batch (b ∷ bs) =
    let rest = failed_rows batch bs in if text_eq b batch then failed ∷ rest else rest

unfoldable pub batch_rows : Text → List Text → Db → List SettlementStatus
batch_rows batch requeued db =
    map (λ e. e.status)
      (select
        (λ e.
          option_text_eq e.allocator_batch_id (some batch) && not (is_some e.settlement_rollup_id))
        db.earnings)
    ++ map (λ r. r.status)
        (select (λ r. option_text_eq r.allocator_batch_id (some batch)) db.rollups)
    ++ failed_rows batch requeued

abbrev pub set_batch : BatchUpdate → SettlementBatch → SettlementBatch
set_batch u b = record b { status = u.status; confirmed_at = u.confirmed_at }

-- `merchantSettlementBatch.update` by id.
unfoldable pub update_batch : Text → BatchUpdate → M (Unit {0})
update_batch id u db =
    if is_some (find (λ (b : SettlementBatch). text_eq b.id id) db.batches)
    then ok (tt, record db { batches = update (λ b. text_eq b.id id) (set_batch u) db.batches })
    else err record_not_found

-- The last loop; it answers how many batches it updated.
unfoldable pub update_batches : ℕ → List Text → List Text → M ℕ
unfolding batch_rows update_batch derive_batch_status_update
update_batches now [] requeued db = ok (0, db)
update_batches now (b ∷ bs) requeued db =
    elim (derive_batch_status_update now (batch_rows b requeued db)) [
      | none ↦ update_batches now bs requeued db
      | some u ↦
          (update_batch b u >>= λ _. update_batches now bs requeued >>= λ n. return (suc n)) db
    ]

-- The four `if` blocks.
unfoldable pub confirm_rollups : ℕ → List SubmittedRow → List Text → M (Unit {0})
unfolding move_rollups
confirm_rollups now rollups ids =
    move_rollups (confirm_rollup now) (confirm_earning now)
      "Reconcile failed to update all confirmed settlement rollups."
      "Reconcile failed to update all confirmed member earnings." ids (earning_count_of ids rollups)

unfoldable pub requeue_rollups : ℕ → List SubmittedRow → List Text → M (Unit {0})
unfolding move_rollups
requeue_rollups now rollups ids =
    move_rollups (requeue_rollup now) (requeue_earning now)
      "Reconcile failed to requeue all expected settlement rollups."
      "Reconcile failed to requeue all expected member earnings." ids (earning_count_of ids rollups)

unfoldable pub confirm_legacy_rows : ℕ → List Text → M (Unit {0})
unfolding move_earnings
confirm_legacy_rows now ids =
    move_earnings (confirm_earning now) "Reconcile failed to update all confirmed legacy earnings."
      ids

unfoldable pub requeue_legacy_rows : ℕ → List Text → M (Unit {0})
unfolding move_earnings
requeue_legacy_rows now ids =
    move_earnings (requeue_legacy now) "Reconcile failed to requeue all expected legacy earnings."
      ids

unfoldable pub write_reconciliation : ℕ → List SubmittedRow → Tally → Tally → M ℕ
unfolding confirm_rollups requeue_rollups confirm_legacy_rows requeue_legacy_rows update_batches
write_reconciliation now rollups r l = do
  confirm_rollups now rollups r.confirmed_ids
  requeue_rollups now rollups r.requeued_ids
  confirm_legacy_rows now l.confirmed_ids
  requeue_legacy_rows now l.requeued_ids
  update_batches now l.touched l.requeued_batches

pub record ReconcileResult : Type 0 where
  pub selected_count : ℕ
  pub confirmed_count : ℕ
  pub requeued_count : ℕ
  pub still_submitted_count : ℕ
  pub updated_batch_count : ℕ

-- `Math.max(1, input.limit ?? 100)`.
abbrev pub limit_of : ReconcileInput → ℕ
limit_of input = max 1 (or_else input.limit 100)

abbrev pub report_of : ℕ → Tally → ℕ → ReconcileResult
report_of selected t updated = record {
  selected_count = selected;
  confirmed_count = t.confirmed_count;
  requeued_count = t.requeued_count;
  still_submitted_count = t.still_submitted_count;
  updated_batch_count = updated;
}

unfoldable pub reconcile_merchant_settlement_rows :
    Env → Chain → (Db → Db) → ℕ → ReconcileInput → Db → Result ReconcileResult × Db
unfolding submitted_rollups submitted_legacy_rows cached_hashes handle_rows write_reconciliation
reconcile_merchant_settlement_rows env chain between now input db =
    let rollups = submitted_rollups env input (limit_of input) db in
    let legacy = submitted_legacy_rows env input (limit_of input - length rollups) db in
    let hashes = cached_hashes (rollups ++ legacy) in
    let r = handle_rows chain hashes input.min_confirmations rollups empty_tally in
    let l = handle_rows chain hashes input.min_confirmations legacy (next_lists r) in
    transaction
      (write_reconciliation now rollups r l >>= λ n.
        return (report_of (length rollups + length legacy) l n))
      (between db)
