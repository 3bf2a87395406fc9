-- ===== src/Store/Schema.antt =====
-- The tables of prisma/schema.prisma that credits, fulfillment and settlement read and write. Times
-- are milliseconds; JSON metadata columns, failure messages, and `updatedAt` stamps that no code
-- reads are left out.
use Prim.Native.Nat.{ℕ}
use mathlib.Core.Bool.{Bool}
use mathlib.Core.Option.{Option}
use mathlib.Core.List.{List}
use ghost_protocol.Prelude.{Text}
use ghost_protocol.Prelude.Int.{ℤ}

-- Int columns; the code and its guards keep both numbers at 0 or more.
pub record CreditBalance : Type 0 where
  pub wallet_address : Text
  pub credits : ℕ
  pub held_credits : ℕ
  pub last_synced_block : ℕ

pub data Direction : Type 0 where
  credit debit adjustment : Direction

pub record LedgerEntry : Type 0 where
  pub wallet_address : Text
  pub direction : Direction
  pub amount : ℕ
  pub available_credits_delta : Option ℤ
  pub held_credits_delta : Option ℤ
  pub balance_before : ℕ
  pub balance_after : ℕ
  pub reason : Text
  pub service : Option Text
  pub nonce : Option Text
  pub request_id : Option Text

pub record AccessNonce : Type 0 where
  pub signer : Text
  pub service : Text
  pub nonce : Text
  pub payload_timestamp : ℕ
  pub signature : Option Text

pub data HoldState : Type 0 where
  held captured released expired : HoldState

pub data ReleaseReason : Type 0 where
  ttl_expired manual capture_failed_policy : ReleaseReason

pub record FulfillmentHold : Type 0 where
  pub id : Text
  pub ticket_id : Text
  pub wallet_address : Text
  pub service_slug : Text
  pub agent_id : Option Text
  pub gateway_config_id : Option Text
  pub merchant_owner_address : Text
  pub request_method : Text
  pub request_path : Text
  pub query_hash : Text
  pub body_hash : Text
  pub cost : ℕ
  pub state : HoldState
  pub issued_at : ℕ
  pub expires_at : ℕ
  pub captured_at : Option ℕ
  pub released_at : Option ℕ
  pub release_reason : Option ReleaseReason
  pub capture_delivery_proof_id : Option Text
  pub capture_status_code : Option ℕ
  pub capture_latency_ms : Option ℕ
  pub created_at : ℕ

pub record CaptureAttempt : Type 0 where
  pub hold_id : Text
  pub ticket_id : Text
  pub delivery_proof_id : Text
  pub merchant_signer : Text
  pub success : Bool
  pub http_status : ℕ
  pub capture_disposition : Option Text
  pub error_code : Option Text

pub record DelegatedSigner : Type 0 where
  pub gateway_config_id : Text
  pub signer_address : Text
  pub is_active : Bool

pub data EarningSource : Type 0 where
  gate_debit fulfillment_capture : EarningSource

pub data SettlementStatus : Type 0 where
  pending submitted confirmed failed : SettlementStatus

pub record MerchantEarning : Type 0 where
  pub id : Text
  pub settlement_id : Text
  pub wallet_address : Text
  pub merchant_owner_address : Text
  pub agent_id : Option Text
  pub service_slug : Text
  pub source_type : EarningSource
  pub source_id : Text
  pub gross_credits : ℕ
  pub gross_wei : ℕ
  pub fee_wei : ℕ
  pub net_wei : ℕ
  pub status : SettlementStatus
  pub settlement_rollup_id : Option Text
  pub allocator_batch_id : Option Text
  pub tx_hash : Option Text
  pub failure_code : Option Text
  pub created_at : ℕ
  pub updated_at : ℕ

pub data RollupReleaseReason : Type 0 where
  fee_threshold max_age : RollupReleaseReason

pub record SettlementRollup : Type 0 where
  pub id : Text
  pub settlement_id : Text
  pub merchant_owner_address : Text
  pub status : SettlementStatus
  pub gross_wei : ℕ
  pub fee_wei : ℕ
  pub net_wei : ℕ
  pub earning_count : ℕ
  pub oldest_earning_created_at : ℕ
  pub newest_earning_created_at : ℕ
  pub release_reason : RollupReleaseReason
  pub allocator_batch_id : Option Text
  pub tx_hash : Option Text
  pub failure_code : Option Text
  pub created_at : ℕ
  pub updated_at : ℕ

pub data BatchStatus : Type 0 where
  batch_open batch_submitted batch_confirmed batch_failed : BatchStatus

pub record SettlementBatch : Type 0 where
  pub id : Text
  pub status : BatchStatus
  pub tx_hash : Option Text
  pub submitted_at : Option ℕ
  pub confirmed_at : Option ℕ
  pub created_at : ℕ

pub record ServicePricing : Type 0 where
  pub service : Text
  pub cost : ℕ
  pub is_active : Bool

pub record Db : Type 0 where
  pub balances : List CreditBalance
  pub ledger : List LedgerEntry
  pub nonces : List AccessNonce
  pub holds : List FulfillmentHold
  pub attempts : List CaptureAttempt
  pub signers : List DelegatedSigner
  pub earnings : List MerchantEarning
  pub rollups : List SettlementRollup
  pub batches : List SettlementBatch
  pub pricing : List ServicePricing
