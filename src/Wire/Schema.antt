-- ===== src/Wire/Schema.antt =====
-- The Wire tables of prisma/schema.prisma and their enums. Times are milliseconds; a JSON column is
-- its text, but a webhook's payload is the object that the code builds; ids of rows that no code
-- reads, constant columns and stamps that no code reads are left out.
use Prim.Native.Nat.{ℕ}
use mathlib.Core.Bool.{Bool, true, false}
use mathlib.Core.Option.{Option}
use mathlib.Core.List.{List}
use ghost_protocol.Prelude.{refl, Text, ◌≡◌, arith}

-- WireContractState; `job_` stands before a word that the language reserves or the tables share.
pub data WireContractState : Type 0 where
  job_open job_funded job_submitted job_completed job_rejected job_expired : WireContractState

-- WireTerminalDisposition.
pub data WireTerminalDisposition : Type 0 where
  completed rejected lapsed : WireTerminalDisposition

pub data WireWorkflowStatus : Type 0 where
  pending in_progress succeeded failed : WireWorkflowStatus

pub data WireArtifactValidationState : Type 0 where
  unvalidated partial valid invalid manual_review : WireArtifactValidationState

pub data WireWebhookDeliveryStatus : Type 0 where
  undelivered delivered delivery_failed dead_letter : WireWebhookDeliveryStatus

pub data WireOperatorActionType : Type 0 where
  approve create fund submit complete reject expire reclaim : WireOperatorActionType

pub record WireQuote : Type 0 where
  pub quote_id : Text
  pub client_address : Option Text
  pub provider_address : Text
  pub provider_agent_id : Option Text
  pub provider_service_slug : Option Text
  pub evaluator_address : Text
  pub chain_id : ℕ
  pub principal_amount : ℕ
  pub protocol_fee_amount : ℕ
  pub network_reserve_amount : ℕ
  pub ttl_seconds : ℕ
  pub expires_at : ℕ
  pub consumed_at : Option ℕ

pub record WireJob : Type 0 where
  pub id : Text
  pub job_id : Text
  pub quote_id : Text
  pub chain_id : ℕ
  pub job_expires_at : ℕ
  pub contract_address : Option Text
  pub contract_job_id : Option Text
  pub contract_budget_amount : ℕ
  pub client_address : Text
  pub provider_address : Text
  pub provider_agent_id : Option Text
  pub provider_service_slug : Option Text
  pub evaluator_address : Text
  pub principal_amount : ℕ
  pub protocol_fee_amount : ℕ
  pub network_reserve_amount : ℕ
  pub spec_hash : Text
  pub metadata_uri : Option Text
  pub request_payload : Option Text
  pub contract_state : WireContractState
  pub public_state : WireContractState
  pub terminal_disposition : Option WireTerminalDisposition
  pub create_tx_hash : Option Text
  pub create_tx_sender : Option Text
  pub fund_tx_hash : Option Text
  pub fund_tx_sender : Option Text
  pub terminal_tx_hash : Option Text
  pub artifacts_recorded_at : Option ℕ
  pub artifact_validation_state : WireArtifactValidationState
  pub artifact_validation_error : Option Text
  pub webhook_target_url : Option Text
  pub webhook_secret : Option Text
  pub created_at : ℕ
  pub updated_at : ℕ

pub record WireJobWorkflow : Type 0 where
  pub wire_job_id : Text
  pub artifact_status : WireWorkflowStatus
  pub create_status : WireWorkflowStatus
  pub fund_status : WireWorkflowStatus
  pub confirmation_status : WireWorkflowStatus
  pub reconcile_status : WireWorkflowStatus
  pub artifact_checked_at : Option ℕ
  pub artifact_last_checked_block : Option ℕ
  pub last_error : Option Text
  pub last_attempt_at : Option ℕ
  pub retry_count : ℕ
  pub next_retry_at : Option ℕ
  pub manual_review_required : Bool
  pub manual_review_reason : Option Text

pub record WireJobTransition : Type 0 where
  pub wire_job_id : Text
  pub event_id : Text
  pub from_state : Option WireContractState
  pub to_state : WireContractState
  pub source_tx_hash : Option Text
  pub source_log_index : Option ℕ
  pub block_number : Option ℕ
  pub observed_at : ℕ
  pub confirmed_at : Option ℕ
  pub confirmations_at_observation : Option ℕ

pub record WireOperatorSpend : Type 0 where
  pub wire_job_id : Text
  pub action_type : WireOperatorActionType
  pub tx_hash : Text
  pub gas_used : ℕ
  pub effective_gas_price : ℕ
  pub native_amount_spent : ℕ

pub record WirePricing : Type 0 where
  pub principal : ℕ
  pub protocol_fee : ℕ
  pub bps : ℕ
  pub network_reserve : ℕ
  pub chain_id : ℕ

-- What deriveTerminalSettlement answers; assets and decimals are constants of the source.
pub record TerminalSettlement : Type 0 where
  pub provider_payout : ℕ
  pub protocol_revenue : ℕ
  pub actual_network_spend : ℕ
  pub unused_network_reserve_refund : ℕ

-- The fields that every webhook's payload has.
pub record PayloadBase : Type 0 where
  pub job_id : Text
  pub quote_id : Text
  pub state : WireContractState
  pub contract_state : WireContractState
  pub request : Option Text
  pub pricing : WirePricing

pub data WirePayload : Type 0 where
  -- createdAt.
  open_payload : PayloadBase → ℕ → WirePayload
  -- contractAddress, contractJobId, createTxHash, fundTxHash, observedAt.
  funded_payload :
      PayloadBase → Option Text → Option Text → Option Text → Option Text → ℕ → WirePayload
  -- contractAddress, contractJobId, fundTxHash, observedAt.
  submitted_payload : PayloadBase → Option Text → Option Text → Option Text → ℕ → WirePayload
  -- contractAddress, contractJobId, terminalDisposition, terminalTxHash, observedAt, settlement.
  terminal_payload :
      PayloadBase
      → Option Text
      → Option Text
      → Option WireTerminalDisposition
      → Option Text
      → ℕ
      → Option TerminalSettlement
      → WirePayload

pub record WireWebhookOutbox : Type 0 where
  pub event_id : Text
  pub wire_job_id : Text
  pub event_type : Text
  pub state : WireContractState
  pub contract_state : WireContractState
  pub payload_json : WirePayload
  pub delivery_status : WireWebhookDeliveryStatus
  pub attempt_count : ℕ
  pub last_attempt_at : Option ℕ
  pub next_attempt_at : Option ℕ
  pub delivered_at : Option ℕ
  pub last_error : Option Text
  pub created_at : ℕ

pub record WireDb : Type 0 where
  pub quotes : List WireQuote
  pub jobs : List WireJob
  pub workflows : List WireJobWorkflow
  pub transitions : List WireJobTransition
  pub spends : List WireOperatorSpend
  pub outbox : List WireWebhookOutbox

abbrev pub state_eq : WireContractState → WireContractState → Bool
state_eq job_open job_open = true
state_eq job_funded job_funded = true
state_eq job_submitted job_submitted = true
state_eq job_completed job_completed = true
state_eq job_rejected job_rejected = true
state_eq job_expired job_expired = true
state_eq s t = false

abbrev pub state_of_disposition : WireTerminalDisposition → WireContractState
state_of_disposition completed = job_completed
state_of_disposition rejected = job_rejected
state_of_disposition lapsed = job_expired

pub state_eq_sound : (s t : WireContractState) → state_eq s t ≡ true → s ≡ t
state_eq_sound job_open t e = ground arith
state_eq_sound job_funded t e = ground arith
state_eq_sound job_submitted t e = ground arith
state_eq_sound job_completed t e = ground arith
state_eq_sound job_rejected t e = ground arith
state_eq_sound job_expired t e = ground arith

pub state_eq_refl : (s : WireContractState) → state_eq s s ≡ true
state_eq_refl job_open = refl
state_eq_refl job_funded = refl
state_eq_refl job_submitted = refl
state_eq_refl job_completed = refl
state_eq_refl job_rejected = refl
state_eq_refl job_expired = refl
