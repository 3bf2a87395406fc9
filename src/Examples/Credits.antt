-- ===== src/Examples/Credits.antt =====
-- Runs on credits: a wallet whose balance another request debits in between.
use ghost_protocol.Prelude.{
  ℕ, ◌+◌, ◌/◌, ◌≤◌, ◌≡◌, ◌≢◌, refl, Bool, true, false, Option, none, some, List, [], ◌∷◌, Text,
  codes, arith, find, text_eq, text_eq_refl, or_else,
}
use ghost_protocol.Prelude.Int.{pos}
use ghost_protocol.Store.{CreditBalance, Db, ok}
use ghost_protocol.Credits.{normalize_address_key, find_balance}
use ghost_protocol.Credits.Balances.{
  credits_of, Movement, ConsumeUserCreditsOptions, consume_user_credits,
}
use ghost_protocol.Credits.Balances.Overdraft.{Debits, Consumed, consume_user_credits-Consumed}
use ghost_protocol.Credits.Gate.{
  ConsumeGateCreditsOptions, accepted, replay, gate_nonce, consume_user_credits_for_gate,
}
use ghost_protocol.Credits.Gate.Outcomes.{
  consume_user_credits_for_gate-Debits, consume_user_credits_for_gate-replay,
}
use ghost_protocol.Credits.Sync.{SyncDepositsOptions, SyncDepositsResult, block_of, sync_deposits}
use ghost_protocol.Credits.Sync.CompareAndSet.{
  Synced, sync_deposits-Synced, sync_deposits-forward, sync_deposits-lost_update,
}
use ghost_protocol.Settlement.Amounts.{
  SettlementAmountBreakdown, ghost_protocol_fee_bps, ghost_credit_price_wei,
  calculate_settlement_amounts,
}
use ghost_protocol.Settlement.Amounts.Split.{IsSplit, calculate_settlement_amounts-IsSplit}
use ghost_protocol.Examples.{env, alice, merchant, service, funded_db}

-- The row of alice with so many credits.
abbrev row : ℕ → CreditBalance
row n = record { wallet_address = alice; credits = n; held_credits = 0; last_synced_block = 5 }

-- Another request takes 40 of the 100 credits.
abbrev debited : Db → Db
debited db = record db { balances = row 60 ∷ [] }

abbrev options : ConsumeUserCreditsOptions
options = record {
  reason = none;
  service = some service;
  nonce = none;
  request_id = some (codes "r1");
}

abbrev consumed_db : Db
unfolding consume_user_credits
consumed_db = (consume_user_credits env debited alice (pos 30) options funded_db).1

consumed :
    consume_user_credits env debited alice (pos 30) options funded_db
    ≡ (ok (some (record { before = 100; after = 30 })), consumed_db)
unfolding consume_user_credits normalize_address_key ghost_protocol.Prelude.to_lower_case
    ghost_protocol.Prelude.trim find ghost_protocol.Credits.to_prisma_int text_eq
    ghost_protocol.Credits.persist_access_nonce ghost_protocol.Credits.update_balance
    ghost_protocol.Credits.write_credit_ledger ghost_protocol.Credits.to_prisma_signed_int
    ghost_protocol.Prelude.update ghost_protocol.Prelude.option_text_eq
    ghost_protocol.Credits.Balances.debit_if_covered
consumed = refl

consume_user_credits-Consumed_example :
    Consumed env alice
      (pos 30)
      (record { before = 100; after = 30 })
      (debited funded_db)
      consumed_db
consume_user_credits-Consumed_example =
    consume_user_credits-Consumed env debited alice (pos 30) options funded_db consumed

abbrev gate_options : ConsumeGateCreditsOptions
gate_options = record {
  service = service;
  nonce = codes "n7";
  payload_timestamp = 9;
  signature = none;
  request_id = some (codes "r2");
  enforce_nonce_uniqueness = true;
  merchant_owner_address = some merchant;
  agent_id = none;
}

abbrev gate_db : Db
unfolding consume_user_credits_for_gate
gate_db =
    (consume_user_credits_for_gate env debited (codes "e1") 7 alice (pos 30) gate_options
      funded_db).1

gated :
    consume_user_credits_for_gate env debited (codes "e1") 7 alice (pos 30) gate_options funded_db
    ≡ (ok (accepted 100 30 true), gate_db)
unfolding consume_user_credits_for_gate normalize_address_key ghost_protocol.Prelude.to_lower_case
    ghost_protocol.Prelude.trim find ghost_protocol.Credits.to_prisma_int text_eq
    ghost_protocol.Credits.persist_access_nonce ghost_protocol.Credits.update_balance
    ghost_protocol.Credits.write_credit_ledger ghost_protocol.Credits.to_prisma_signed_int
    ghost_protocol.Prelude.update ghost_protocol.Prelude.option_text_eq
    ghost_protocol.Settlement.Amounts.calculate_settlement_amounts
    ghost_protocol.Settlement.Amounts.build_gate_settlement_id
    ghost_protocol.Credits.create_merchant_earning ghost_protocol.Credits.insert_earning
    ghost_protocol.Credits.source_eq ghost_protocol.Credits.Balances.debit_if_covered
gated = refl

consume_user_credits_for_gate-Debits_example :
    (key : Text) × (normalize_address_key env alice ≡ ok key)
    × Debits key 30 (debited funded_db) gate_db
    × (30 ≡ credits_of (find_balance key gate_db))
consume_user_credits_for_gate-Debits_example =
    consume_user_credits_for_gate-Debits env debited (codes "e1") 7 alice 30 gate_options funded_db
      gated

-- Another request spends the nonce.
abbrev spend_nonce : Db → Db
spend_nonce db = record db { nonces = gate_nonce alice gate_options ∷ db.nonces }

consume_user_credits_for_gate-replay_example :
    consume_user_credits_for_gate env spend_nonce
      (codes "e1")
      7
      alice
      (pos 30)
      gate_options
      funded_db
    ≡ (ok replay, spend_nonce funded_db)
unfolding normalize_address_key find text_eq ghost_protocol.Prelude.to_lower_case
consume_user_credits_for_gate-replay_example =
    consume_user_credits_for_gate-replay env spend_nonce (codes "e1") 7 alice 30 gate_options
      funded_db {b₀ = row 100} {b = row 100} refl refl refl (ground arith) (ground arith) refl
      (ground arith) refl (ground arith) refl

abbrev sync_options : SyncDepositsOptions
sync_options = record {
  expected_last_synced_block = some (pos 5);
  allow_last_synced_block_rollback = false;
}

abbrev sync_result : SyncDepositsResult
sync_result = record {
  before = 100;
  added = 2;
  after = 102;
  last_synced_block = 9;
  applied = true;
  conflict = false;
}

abbrev synced_db : Db
unfolding sync_deposits
synced_db = (sync_deposits env debited alice (pos 25) (pos 10) (pos 9) sync_options funded_db).1

synced :
    sync_deposits env debited alice (pos 25) (pos 10) (pos 9) sync_options funded_db
    ≡ (ok sync_result, synced_db)
unfolding sync_deposits normalize_address_key ghost_protocol.Prelude.to_lower_case
    ghost_protocol.Prelude.trim find ghost_protocol.Credits.to_prisma_int text_eq
    ghost_protocol.Credits.persist_access_nonce ghost_protocol.Credits.update_balance
    ghost_protocol.Credits.write_credit_ledger ghost_protocol.Credits.to_prisma_signed_int
    ghost_protocol.Prelude.update ghost_protocol.Prelude.option_text_eq
synced = refl

sync_deposits-Synced_example :
    (key : Text) × (normalize_address_key env alice ≡ ok key)
    × Synced key (find_balance key funded_db) 2 sync_result synced_db
sync_deposits-Synced_example =
    sync_deposits-Synced env debited alice (pos 25) (pos 10) (pos 9) sync_options funded_db synced
      refl

sync_deposits-forward_example :
    (key : Text) × (normalize_address_key env alice ≡ ok key)
    × (block_of (find_balance key (debited funded_db)) ≤ block_of (find_balance key synced_db))
    × (9 ≤ block_of (find_balance key synced_db))
sync_deposits-forward_example =
    sync_deposits-forward env debited alice (pos 25) (pos 10) (pos 9) sync_options funded_db synced
      refl refl

debit : Debits alice 40 funded_db (debited funded_db)
unfolding find
debit = record {
  row = row 100;
  funded = rw (text_eq_refl alice) refl;
  covered = ground arith;
  after = rw (text_eq_refl alice) refl;
  others = λ w apart. rw apart refl;
}

sync_deposits-lost_update_example :
    (credits_of (find_balance alice synced_db)
      ≡ credits_of (find_balance alice (debited funded_db)) + 40 + 25 / 10)
    × (credits_of (find_balance alice synced_db)
        ≢ credits_of (find_balance alice (debited funded_db)) + 25 / 10)
unfolding normalize_address_key ghost_protocol.Prelude.to_lower_case synced_db
sync_deposits-lost_update_example =
    sync_deposits-lost_update env debited alice (pos 25) (pos 10) (pos 9) sync_options funded_db
      refl (ground arith) debit synced refl

abbrev amounts : SettlementAmountBreakdown
amounts = record {
  gross_credits = 30;
  credit_price_wei = 10_000_000_000_000;
  fee_bps = 250;
  gross_wei = 300_000_000_000_000;
  fee_wei = 7_500_000_000_000;
  net_wei = 292_500_000_000_000;
}

split : calculate_settlement_amounts (pos 30) none none ≡ ok amounts
unfolding calculate_settlement_amounts
split = refl

calculate_settlement_amounts-IsSplit_example :
    IsSplit amounts
    × (pos amounts.gross_credits ≡ pos 30)
    × (amounts.fee_bps ≡ or_else none ghost_protocol_fee_bps)
    × (pos amounts.credit_price_wei ≡ or_else none (pos ghost_credit_price_wei))
calculate_settlement_amounts-IsSplit_example =
    calculate_settlement_amounts-IsSplit (pos 30) none none split
