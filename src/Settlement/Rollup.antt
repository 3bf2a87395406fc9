-- ===== src/Settlement/Rollup.antt =====
-- lib/merchant-settlement-rollup.ts: pending earnings, grouped by merchant and summed, become rollups
-- once their fees are worth a transaction or the oldest has waited long enough.
pub mod Limits
pub mod Totals
pub mod Complete
use ghost_protocol.Prelude.{
  ℕ, ◌+◌, Bool, true, false, ◌&&◌, ◌||◌, Option, none, some, List, [], ◌∷◌, ◌++◌, map, Text,
  text_eq, trim, to_lower_case, length, ltb, leb, ◌==◌, if◌then◌else◌, sum_by,
}
use ghost_protocol.Prelude.Sorting.{sort_by}
use ghost_protocol.Store.{RollupReleaseReason, fee_threshold, max_age, Result, ok, err}
use ghost_protocol.Env.{Env}
use ghost_protocol.Credits.{normalize_address_key}

pub record RollupSourceRow : Type 0 where
  pub id : Text
  pub settlement_id : Text
  pub merchant_owner_address : Text
  pub gross_wei : ℕ
  pub fee_wei : ℕ
  pub net_wei : ℕ
  pub created_at : ℕ

pub record RollupConfig : Type 0 where
  pub min_fee_wei : ℕ
  pub max_age_ms : ℕ
  pub max_earnings_per_rollup : ℕ

pub record RollupCandidate : Type 0 where
  pub merchant_owner_address : Text
  pub earning_ids : List Text
  pub earning_settlement_ids : List Text
  pub gross_wei : ℕ
  pub fee_wei : ℕ
  pub net_wei : ℕ
  pub earning_count : ℕ
  pub oldest_created_at : ℕ
  pub newest_created_at : ℕ
  pub release_reason : RollupReleaseReason

abbrev pub compare_rows : Env → RollupSourceRow → RollupSourceRow → Bool
compare_rows env a b =
    ltb a.created_at b.created_at || (a.created_at == b.created_at && env.locale_le a.id b.id)

-- The Map from an owner to its rows, in the order of insertion.
abbrev pub Groups : Type 0
Groups = List (Text × List RollupSourceRow)

-- The entry of an owner: `groupedRows.set` after a `get`, unless the entry is full.
unfoldable pub add_row : ℕ → Text → RollupSourceRow → Groups → Groups
add_row max owner row [] = if leb max 0 then [] else (owner, row ∷ []) ∷ []
add_row max owner row ((key, rows) ∷ groups) =
    let rest = add_row max owner row groups in
    if text_eq key owner
    then if leb max (length rows) then (key, rows) ∷ groups else (key, rows ++ row ∷ []) ∷ groups
    else (key, rows) ∷ rest

abbrev pub normalize_row : Text → RollupSourceRow → RollupSourceRow
normalize_row owner row = record row {
  merchant_owner_address = owner;
  settlement_id = to_lower_case (trim row.settlement_id);
}

-- The first loop; an address that viem refuses ends it with its error.
unfoldable pub group_rows : Env → ℕ → List RollupSourceRow → Groups → Result Groups
unfolding add_row
group_rows env max [] groups = ok groups
group_rows env max (row ∷ rows) groups =
    elim (normalize_address_key env row.merchant_owner_address) [
      | err e ↦ err e
      | ok owner ↦ group_rows env max rows (add_row max owner (normalize_row owner row) groups)
    ]

-- `oldestCreatedAt.getTime() <= now.getTime() - config.maxAgeMs`, with the age on the other side.
unfoldable pub release_reason_of : RollupConfig → ℕ → ℕ → ℕ → Option RollupReleaseReason
release_reason_of config now fee_wei oldest =
    if leb config.min_fee_wei fee_wei
    then some fee_threshold
    else if leb (oldest + config.max_age_ms) now
    then some max_age
    else none

abbrev pub newest_of : RollupSourceRow → List RollupSourceRow → ℕ
newest_of row [] = row.created_at
newest_of row (next ∷ rows) = newest_of next rows

abbrev pub candidate :
    Text → RollupSourceRow → List RollupSourceRow → RollupReleaseReason → RollupCandidate
candidate owner row rows reason =
    let all = row ∷ rows in
    record {
      merchant_owner_address = owner;
      earning_ids = map (λ r. r.id) all;
      earning_settlement_ids = map (λ r. r.settlement_id) all;
      gross_wei = sum_by (λ r. r.gross_wei) all;
      fee_wei = sum_by (λ r. r.fee_wei) all;
      net_wei = sum_by (λ r. r.net_wei) all;
      earning_count = length all;
      oldest_created_at = row.created_at;
      newest_created_at = newest_of row rows;
      release_reason = reason;
    }

-- The second loop: the groups that are due, as candidates.
unfoldable pub release_groups : RollupConfig → ℕ → Groups → List RollupCandidate
unfolding release_reason_of
release_groups config now [] = []
release_groups config now ((owner, []) ∷ groups) = release_groups config now groups
release_groups config now ((owner, row ∷ rows) ∷ groups) =
    let rest = release_groups config now groups in
    elim (release_reason_of config now (sum_by (λ r. r.fee_wei) (row ∷ rows)) row.created_at) [
      | none ↦ rest
      | some reason ↦ candidate owner row rows reason ∷ rest
    ]

abbrev pub compare_candidates : Env → RollupCandidate → RollupCandidate → Bool
compare_candidates env a b =
    ltb a.oldest_created_at b.oldest_created_at
    || (a.oldest_created_at == b.oldest_created_at
        && env.locale_le a.merchant_owner_address b.merchant_owner_address)

unfoldable pub build_merchant_settlement_rollup_candidates :
    Env → List RollupSourceRow → RollupConfig → ℕ → Result (List RollupCandidate)
unfolding group_rows release_groups
build_merchant_settlement_rollup_candidates env rows config now =
    if config.max_earnings_per_rollup == 0
    then ok []
    else elim (group_rows env config.max_earnings_per_rollup (sort_by (compare_rows env) rows) []) [
      | err e ↦ err e
      | ok groups ↦ ok (sort_by (compare_candidates env) (release_groups config now groups))
    ]
