-- ===== src/Holds/Capture.antt =====
-- lib/db.ts, captureFulfillmentHold: a merchant's delivery proof turns held credits into an earning.
-- The hold's row is locked from its first read, and each refusal is logged as an attempt.
pub mod First
pub mod Replay
pub mod Idempotent
use ghost_protocol.Prelude.{
  ℕ, ◌-◌, Bool, true, false, ◌&&◌, ◌||◌, not, Option, none, some, ◌∷◌, ◌++◌, Text, codes, text_eq,
  trim, to_lower_case, is_empty, is_some, leb, if◌then◌else◌, find,
}
use ghost_protocol.Prelude.Int.{ℤ, pos, neg, is_negative}
use ghost_protocol.Store.{
  CreditBalance, debit, FulfillmentHold, HoldState, held, captured, released, expired,
  DelegatedSigner, fulfillment_capture, Db, failure, Result, ok, err, M, ◌>>=◌, ◌>>◌, return, lift,
  guard, transaction,
}
use ghost_protocol.Env.{Env}
use ghost_protocol.Settlement.Amounts.{
  calculate_settlement_amounts, build_fulfillment_capture_settlement_id,
}
use ghost_protocol.Credits.{
  normalize_address_key, to_prisma_optional_int, find_balance, update_balance, write_credit_ledger,
  create_merchant_earning,
}
use ghost_protocol.Holds.{update_hold}
use ghost_protocol.Holds.Settle.{
  CaptureFulfillmentHoldInput, Capture, CaptureMovement, CaptureFulfillmentHoldResult,
  create_attempt, refuse, mark_captured, spend_held, settle_hold, book_capture, report_capture,
  held_covers, finalize_capture, newly_captured, idempotent_replay, hold_not_found,
  unauthorized_signer, service_mismatch, expired_due, terminal, capture_conflict,
}

-- A hold that is still HELD.
unfoldable pub capture_held :
    Env → Text → ℕ → Capture → FulfillmentHold → M CaptureFulfillmentHoldResult
unfolding finalize_capture refuse
capture_held env id now c h db =
    if leb h.expires_at c.completed_at
    then refuse c h 409 (codes "HOLD_EXPIRED") (expired_due h.id h.expires_at) db
    else elim (find_balance h.wallet_address db) [
      | none ↦ err (failure "CreditBalance missing for fulfillment hold wallet")
      | some b ↦ finalize_capture env id now c h b db
    ]

-- `hold.captureDeliveryProofId && hold.captureDeliveryProofId === deliveryProofId`.
unfoldable pub proof_matches : Text → Option Text → Bool
proof_matches proof none = false
proof_matches proof (some p) = not (is_empty p) && text_eq p proof

unfoldable pub replay_captured :
    Capture → FulfillmentHold → Option ℕ → M CaptureFulfillmentHoldResult
unfolding refuse
replay_captured c h none =
    refuse c h 409 (codes "CAPTURE_CONFLICT") (capture_conflict h.id h.capture_delivery_proof_id)
replay_captured c h (some at) =
    if proof_matches c.delivery_proof_id h.capture_delivery_proof_id
    then (do
      create_attempt c h true 200 (some (codes "IDEMPOTENT_REPLAY")) none
      return (idempotent_replay h.id at))
    else refuse c h 409 (codes "CAPTURE_CONFLICT")
        (capture_conflict h.id h.capture_delivery_proof_id)

-- An authorised signer, by the hold's state.
unfoldable pub capture_by_state :
    Env → Text → ℕ → Capture → FulfillmentHold → HoldState → M CaptureFulfillmentHoldResult
unfolding capture_held replay_captured refuse proof_matches
capture_by_state env id now c h captured = replay_captured c h h.captured_at
capture_by_state env id now c h released =
    refuse c h 409 (codes "HOLD_NOT_ACTIVE") (terminal h.id released)
capture_by_state env id now c h expired =
    refuse c h 409 (codes "HOLD_NOT_ACTIVE") (terminal h.id expired)
capture_by_state env id now c h held = capture_held env id now c h

abbrev pub is_signer_of : Text → Text → DelegatedSigner → Bool
is_signer_of config signer s =
    text_eq s.gateway_config_id config && text_eq s.signer_address signer && s.is_active

-- The checks of the gateway config and its signer; a null or empty config id is falsy.
unfoldable pub capture_authorized :
    Env → Text → ℕ → Capture → FulfillmentHold → Option Text → M CaptureFulfillmentHoldResult
unfolding capture_by_state refuse
capture_authorized env id now c h none db =
    refuse c h 403 (codes "UNAUTHORIZED_DELEGATED_SIGNER") (unauthorized_signer h.id none) db
capture_authorized env id now c h (some config) db =
    if is_empty config
    then refuse c h 403 (codes "UNAUTHORIZED_DELEGATED_SIGNER") (unauthorized_signer h.id none) db
    else if is_some (find (is_signer_of config c.merchant_signer) db.signers)
    then capture_by_state env id now c h h.state db
    else refuse c h 403 (codes "UNAUTHORIZED_DELEGATED_SIGNER")
        (unauthorized_signer h.id (some config)) db

abbrev pub ticket_is : Text → FulfillmentHold → Bool
ticket_is ticket h = text_eq h.ticket_id ticket

unfoldable pub capture_body : Env → Text → ℕ → Capture → M CaptureFulfillmentHoldResult
unfolding capture_authorized refuse
capture_body env id now c db = elim (find (ticket_is c.ticket_id) db.holds) [
  | none ↦ ok (hold_not_found, db)
  | some h ↦
      if not (text_eq h.service_slug c.service_slug)
      then refuse c h 409 (codes "SERVICE_MISMATCH") (service_mismatch h.id h.service_slug) db
      else capture_authorized env id now c h h.gateway_config_id db
]

abbrev pub to_capture : CaptureFulfillmentHoldInput → Text → Capture
to_capture input signer = record {
  ticket_id = to_lower_case (trim input.ticket_id);
  delivery_proof_id = to_lower_case (trim input.delivery_proof_id);
  merchant_signer = signer;
  service_slug = trim input.service_slug;
  completed_at = input.completed_at;
  status_code = to_prisma_optional_int (some input.status_code);
  latency_ms = to_prisma_optional_int (some input.latency_ms);
}

-- `if (!ticketId || !deliveryProofId || !serviceSlug)`.
abbrev pub is_incomplete : Capture → Bool
is_incomplete c = is_empty c.ticket_id || is_empty c.delivery_proof_id || is_empty c.service_slug

unfoldable pub capture_fulfillment_hold :
    Env → Text → ℕ → CaptureFulfillmentHoldInput → Db → Result CaptureFulfillmentHoldResult × Db
unfolding capture_body
capture_fulfillment_hold env id now input db =
    elim (normalize_address_key env input.merchant_signer) [
      | err e ↦ (err e, db)
      | ok signer ↦
          if is_incomplete (to_capture input signer)
          then (
            err (
                failure
                  "captureFulfillmentHold requires ticketId, deliveryProofId, and serviceSlug."),
            db,
          )
          else if is_negative input.status_code || is_negative input.latency_ms
          then (
            err (failure "captureFulfillmentHold statusCode/latencyMs must be non-negative."),
            db,
          )
          else transaction (capture_body env id now (to_capture input signer)) db
    ]
