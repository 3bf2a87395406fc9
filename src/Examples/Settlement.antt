-- ===== src/Examples/Settlement.antt =====
-- Runs on settlement: two earnings that become a rollup, and one whose transaction was reverted.
use ghost_protocol.Prelude.{
  select, count, ℕ, ◌+◌, ◌≤◌, ◌≡◌, refl, ◌⊎◌, ◌↔◌, Bool, true, false, Option, none, some, or_else,
  List, [], ◌∷◌, Text, codes, text_eq, find, every, sum_by, max, All, arith, inr,
}
use ghost_protocol.Store.{
  gate_debit, SettlementStatus, submitted, confirmed, MerchantEarning, batch_submitted, Db, ok,
  fee_threshold,
}
use ghost_protocol.Settlement.Rollup.{
  RollupSourceRow, RollupConfig, RollupCandidate, build_merchant_settlement_rollup_candidates,
}
use ghost_protocol.Settlement.Rollup.Limits.{
  IsDue, build_merchant_settlement_rollup_candidates-IsDue,
}
use ghost_protocol.Settlement.Rollup.Complete.{build_merchant_settlement_rollup_candidates_complete}
use ghost_protocol.Settlement.Rollup.Totals.{
  occurs, build_merchant_settlement_rollup_candidates-once,
}
use ghost_protocol.Settlement.Reconcile.{
  reverted, Chain, ReconcileInput, SubmittedRow, handle_rows, empty_tally, next_lists,
}
use ghost_protocol.Settlement.Reconcile.Outcomes.{put_back, handle_rows-put_back}
use ghost_protocol.Settlement.Reconcile.Write.{ReconcileResult, reconcile_merchant_settlement_rows}
use ghost_protocol.Settlement.Reconcile.Report.{
  CountsVerdicts, selected_rows, reconcile_merchant_settlement_rows-counts,
}
use ghost_protocol.Settlement.Reconcile.Unsubmitted.{
  earning_id_is, reconcile_merchant_settlement_rows-unsubmitted,
}
use ghost_protocol.Settlement.Summary.{
  SummaryInput, SettlementSummary, summary_of, get_merchant_settlement_summary, scope_owner_of,
}
use ghost_protocol.Settlement.Summary.Partition.{
  SummarisesAll, get_merchant_settlement_summary-sums, SummarisesAll,
}
use ghost_protocol.Examples.{env, alice, merchant, service, funded_db}

abbrev source_row : Text → ℕ → RollupSourceRow
source_row id created = record {
  id = id;
  settlement_id = id;
  merchant_owner_address = merchant;
  gross_wei = 100;
  fee_wei = 2;
  net_wei = 98;
  created_at = created;
}

abbrev rows : List RollupSourceRow
rows = source_row (codes "e2") 20 ∷ source_row (codes "e1") 10 ∷ []

abbrev config : RollupConfig
config = record { min_fee_wei = 3; max_age_ms = 1000; max_earnings_per_rollup = 5 }

abbrev rollup : RollupCandidate
rollup = record {
  merchant_owner_address = merchant;
  earning_ids = codes "e1" ∷ codes "e2" ∷ [];
  earning_settlement_ids = codes "e1" ∷ codes "e2" ∷ [];
  gross_wei = 200;
  fee_wei = 4;
  net_wei = 196;
  earning_count = 2;
  oldest_created_at = 10;
  newest_created_at = 20;
  release_reason = fee_threshold;
}

built : build_merchant_settlement_rollup_candidates env rows config 50 ≡ ok (rollup ∷ [])
unfolding build_merchant_settlement_rollup_candidates ghost_protocol.Prelude.Sorting.sort_by
    ghost_protocol.Credits.normalize_address_key text_eq ghost_protocol.Prelude.to_lower_case sum_by
    ghost_protocol.Prelude.trim
built = refl

build_merchant_settlement_rollup_candidates-IsDue_example : All (IsDue config 50) (rollup ∷ [])
build_merchant_settlement_rollup_candidates-IsDue_example =
    build_merchant_settlement_rollup_candidates-IsDue env rows config 50 (refl, (refl, tt)) built

build_merchant_settlement_rollup_candidates-once_example :
    sum_by (λ c. sum_by (occurs (codes "e1")) c.earning_ids) (rollup ∷ [])
    ≤ sum_by (λ r. occurs (codes "e1") r.id) rows
build_merchant_settlement_rollup_candidates-once_example =
    build_merchant_settlement_rollup_candidates-once env rows config 50 built (codes "e1")

built_later : build_merchant_settlement_rollup_candidates env rows config 1020 ≡ ok (rollup ∷ [])
unfolding build_merchant_settlement_rollup_candidates ghost_protocol.Prelude.Sorting.sort_by
    ghost_protocol.Credits.normalize_address_key text_eq ghost_protocol.Prelude.to_lower_case sum_by
    ghost_protocol.Prelude.trim
built_later = refl

build_merchant_settlement_rollup_candidates_complete_example :
    sum_by (λ c. sum_by (occurs (codes "e1")) c.earning_ids) (rollup ∷ [])
    ≡ sum_by (λ r. occurs (codes "e1") r.id) rows
build_merchant_settlement_rollup_candidates_complete_example =
    build_merchant_settlement_rollup_candidates_complete env rows config 1020
      (inr (omega arith), (inr (omega arith), tt)) (omega arith) built_later (codes "e1")

abbrev earning : Text → SettlementStatus → MerchantEarning
earning id status = record {
  id = id;
  settlement_id = id;
  wallet_address = alice;
  merchant_owner_address = merchant;
  agent_id = none;
  service_slug = service;
  source_type = gate_debit;
  source_id = id;
  gross_credits = 1;
  gross_wei = 100;
  fee_wei = 2;
  net_wei = 98;
  status = status;
  settlement_rollup_id = none;
  allocator_batch_id = some (codes "b1");
  tx_hash = some (codes "0xt");
  failure_code = none;
  created_at = 1;
  updated_at = 2;
}

abbrev settled_db : Db
settled_db = record funded_db {
  earnings = earning (codes "e1") submitted ∷ earning (codes "e2") confirmed ∷ [];
  batches =
      record {
        id = codes "b1";
        status = batch_submitted;
        tx_hash = some (codes "0xt");
        submitted_at = some 3;
        confirmed_at = none;
        created_at = 3;
      }
      ∷ [];
}

-- The vault has processed nothing, and every transaction was reverted.
abbrev chain : Chain
chain = record {
  processed = λ s. false;
  receipt = λ t. record { status = reverted; confirmations = 9 };
}

abbrev input : ReconcileInput
input = record { min_confirmations = 2; batch_id = none; settlement_id = none; limit = some 10 }

abbrev nobody : Db → Db
nobody db = db

abbrev result : ReconcileResult
result = record {
  selected_count = 1;
  confirmed_count = 0;
  requeued_count = 1;
  still_submitted_count = 0;
  updated_batch_count = 1;
}

abbrev reconciled_db : Db
unfolding reconcile_merchant_settlement_rows
reconciled_db = (reconcile_merchant_settlement_rows env chain nobody 7 input settled_db).1

reconciled :
    reconcile_merchant_settlement_rows env chain nobody 7 input settled_db
    ≡ (ok result, reconciled_db)
unfolding reconcile_merchant_settlement_rows ghost_protocol.Prelude.Sorting.sort_by
    ghost_protocol.Prelude.select ghost_protocol.Prelude.trim_or_null ghost_protocol.Prelude.trim
    ghost_protocol.Prelude.to_lower_case text_eq find ghost_protocol.Prelude.option_text_eq
    ghost_protocol.Prelude.count sum_by ghost_protocol.Prelude.update_many
    ghost_protocol.Prelude.update
reconciled = refl

reconcile_merchant_settlement_rows-counts_example :
    CountsVerdicts chain 2 (selected_rows env input settled_db) result
    × (result.selected_count ≤ max 1 (or_else (some 10) 100))
reconcile_merchant_settlement_rows-counts_example =
    reconcile_merchant_settlement_rows-counts env chain nobody 7 input settled_db reconciled

found :
    find (earning_id_is (codes "e2")) settled_db.earnings ≡ some (earning (codes "e2") confirmed)
unfolding find text_eq
found = refl

reconcile_merchant_settlement_rows-unsubmitted_example :
    find
      (earning_id_is (codes "e2"))
      (reconcile_merchant_settlement_rows env chain nobody 7 input settled_db).1.earnings
    ≡ some (earning (codes "e2") confirmed)
reconcile_merchant_settlement_rows-unsubmitted_example =
    reconcile_merchant_settlement_rows-unsubmitted env chain nobody 7 input settled_db (codes "e2")
      (earning (codes "e2") confirmed) refl found

abbrev submitted_row : SubmittedRow
submitted_row = record {
  id = codes "e1";
  settlement_id = codes "e1";
  tx_hash = some (codes "0xt");
  allocator_batch_id = some (codes "b1");
  earning_count = 1;
}

abbrev hashes : List Text
hashes = codes "0xt" ∷ []

handle_rows-put_back_example :
    every
      (put_back chain hashes (submitted_row ∷ []))
      (handle_rows chain hashes 2 (submitted_row ∷ []) (next_lists empty_tally)).requeued_ids
    ≡ true
handle_rows-put_back_example = handle_rows-put_back chain hashes 2 (submitted_row ∷ []) empty_tally

abbrev scope : SummaryInput
scope = record {
  merchant_owner_address = some merchant;
  agent_id = none;
  service_slug = some service;
  created_at_gte = none;
}

abbrev summary : SettlementSummary
unfolding summary_of
summary = summary_of scope (some merchant) settled_db

summarised : get_merchant_settlement_summary env scope settled_db ≡ ok summary
unfolding get_merchant_settlement_summary ghost_protocol.Credits.normalize_address_key
    ghost_protocol.Prelude.to_lower_case
summarised = refl

get_merchant_settlement_summary-sums_example :
    (scope_owner_of env (some merchant) ≡ ok (some merchant))
    × SummarisesAll scope settled_db summary
unfolding summary
get_merchant_settlement_summary-sums_example =
    get_merchant_settlement_summary-sums env scope settled_db summarised
