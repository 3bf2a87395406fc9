-- ===== src/Wire/Scan.antt =====
-- lib/ghostwire-operator.ts, getLatestGhostWireLifecycleEvent: the chain's logs of a job are read backwards,
-- a range of blocks at a time, up to the first range that has one. `chain` is all of the job's logs;
-- `getLogs` answers those of one event in a range of blocks. The loop is on fuel: the outer option is
-- none if it runs out.
pub mod Ranges
pub mod Latest
use ghost_protocol.Prelude.{
  ℕ, zero, suc, ◌+◌, ◌-◌, ◌/◌, Bool, true, false, ◌&&◌, ◌||◌, Option, none, some, List, [], ◌∷◌,
  ◌++◌, map, Text, leb, ltb, ◌==◌, select, last_of, if◌then◌else◌, length,
}
use ghost_protocol.Prelude.Sorting.{sort_by}
use ghost_protocol.Wire.Schema.{
  WireContractState, job_submitted, job_completed, job_rejected, job_expired, state_eq, job_open,
  job_funded,
}

-- A mined log of the contract: the event, the transaction, and where it stands.
pub record Log : Type 0 where
  pub state : WireContractState
  pub tx_hash : Text
  pub block_number : ℕ
  pub log_index : ℕ

pub record LifecycleEvent : Type 0 where
  pub state : WireContractState
  pub tx_hash : Text
  pub block_number : ℕ
  pub log_index : ℕ
  pub confirmations : ℕ

abbrev pub log_scan_block_range : ℕ
log_scan_block_range = 9_000

abbrev pub in_range : ℕ → ℕ → Log → Bool
in_range from_block to_block log = leb from_block log.block_number && leb log.block_number to_block

unfoldable pub get_logs : WireContractState → ℕ → ℕ → List Log → List Log
get_logs state from_block to_block chain =
    select (λ log. state_eq log.state state && in_range from_block to_block log) chain

abbrev pub event_of : ℕ → Log → LifecycleEvent
event_of latest_block log = record {
  state = log.state;
  tx_hash = log.tx_hash;
  block_number = log.block_number;
  log_index = log.log_index;
  confirmations =
      if leb log.block_number latest_block then latest_block - log.block_number + 1 else 0;
}

unfoldable pub events_in : ℕ → ℕ → ℕ → List Log → List LifecycleEvent
unfolding get_logs
events_in latest_block from_block to_block chain =
    map (event_of latest_block) (get_logs job_submitted from_block to_block chain)
    ++ map (event_of latest_block) (get_logs job_completed from_block to_block chain)
    ++ map (event_of latest_block) (get_logs job_rejected from_block to_block chain)
    ++ map (event_of latest_block) (get_logs job_expired from_block to_block chain)

-- The order of blocks, and of logs in a block.
unfoldable pub event_le : LifecycleEvent → LifecycleEvent → Bool
event_le left right =
    ltb left.block_number right.block_number
    || (left.block_number == right.block_number && leb left.log_index right.log_index)

-- `toBlock > RANGE ? toBlock - RANGE : 0`.
unfoldable pub range_start : ℕ → ℕ
range_start to_block =
    if ltb log_scan_block_range to_block then to_block - log_scan_block_range else 0

unfoldable pub scan_back : ℕ → ℕ → ℕ → List Log → Option (Option LifecycleEvent)
unfolding range_start events_in event_le sort_by
scan_back zero latest_block to_block chain = none
scan_back (suc fuel) latest_block to_block chain =
    let from_block = range_start to_block in
    let events = events_in latest_block from_block to_block chain in
    let rest = scan_back fuel latest_block (from_block - 1) chain in
    if ltb 0 (length events)
    then some (last_of (sort_by event_le events))
    else if from_block == 0
    then some none
    else rest

-- Ranges are 9,001 blocks long, so this many cover the chain.
abbrev pub scan_rounds : ℕ → ℕ
scan_rounds latest_block = latest_block / 9_001 + 1

unfoldable pub get_latest_lifecycle_event : ℕ → List Log → Option (Option LifecycleEvent)
unfolding scan_back
get_latest_lifecycle_event latest_block chain =
    scan_back (scan_rounds latest_block) latest_block latest_block chain

-- The events that the scan looks for.
abbrev pub is_lifecycle : WireContractState → Bool
is_lifecycle job_open = false
is_lifecycle job_funded = false
is_lifecycle state = true

-- A log of these events, in a block that the chain had when the scan began.
abbrev pub is_relevant : ℕ → Log → Bool
is_relevant latest_block log = is_lifecycle log.state && leb log.block_number latest_block
