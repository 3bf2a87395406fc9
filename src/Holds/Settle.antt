-- ===== src/Holds/Settle.antt =====
-- lib/db.ts, captureFulfillmentHold: its input and answers, and the writes of a capture: the hold and the
-- balance, the ledger, the earning, and the log of attempts.
use ghost_protocol.Prelude.{
  ℕ, ◌-◌, Bool, true, false, Option, none, some, ◌∷◌, ◌++◌, Text, codes, leb,
}
use ghost_protocol.Prelude.Int.{ℤ, pos, neg}
use ghost_protocol.Store.{
  CreditBalance, debit, FulfillmentHold, HoldState, captured, fulfillment_capture, failure, ok, M,
  ◌>>=◌, ◌>>◌, return, lift, guard,
}
use ghost_protocol.Env.{Env}
use ghost_protocol.Settlement.Amounts.{
  calculate_settlement_amounts, build_fulfillment_capture_settlement_id,
}
use ghost_protocol.Credits.{update_balance, write_credit_ledger, create_merchant_earning}
use ghost_protocol.Holds.{update_hold}

pub record CaptureFulfillmentHoldInput : Type 0 where
  pub ticket_id : Text
  pub delivery_proof_id : Text
  pub merchant_signer : Text
  pub service_slug : Text
  pub completed_at : ℕ
  pub status_code : ℤ
  pub latency_ms : ℤ

-- The input as the transaction uses it: trimmed, in lower case, and in column types.
pub record Capture : Type 0 where
  pub ticket_id : Text
  pub delivery_proof_id : Text
  pub merchant_signer : Text
  pub service_slug : Text
  pub completed_at : ℕ
  pub status_code : Option ℕ
  pub latency_ms : Option ℕ

pub record CaptureMovement : Type 0 where
  pub hold_id : Text
  pub captured_at : ℕ
  pub cost : ℕ
  pub credits_before : ℕ
  pub credits_after : ℕ
  pub held_credits_before : ℕ
  pub held_credits_after : ℕ

pub data CaptureFulfillmentHoldResult : Type 0 where
  newly_captured : CaptureMovement → CaptureFulfillmentHoldResult
  idempotent_replay : Text → ℕ → CaptureFulfillmentHoldResult
  hold_not_found : CaptureFulfillmentHoldResult
  unauthorized_signer : Text → Option Text → CaptureFulfillmentHoldResult
  service_mismatch : Text → Text → CaptureFulfillmentHoldResult
  expired_due : Text → ℕ → CaptureFulfillmentHoldResult
  terminal : Text → HoldState → CaptureFulfillmentHoldResult
  capture_conflict : Text → Option Text → CaptureFulfillmentHoldResult

-- The local `createAttempt`.
unfoldable pub create_attempt :
    Capture → FulfillmentHold → Bool → ℕ → Option Text → Option Text → M (Unit {0})
create_attempt c h success http_status disposition error_code db = ok (
  tt,
  record db {
    attempts =
        record {
          hold_id = h.id;
          ticket_id = h.ticket_id;
          delivery_proof_id = c.delivery_proof_id;
          merchant_signer = c.merchant_signer;
          success = success;
          http_status = http_status;
          capture_disposition = disposition;
          error_code = error_code;
        }
        ∷ db.attempts;
  },
)

-- A logged refusal.
unfoldable pub refuse :
    Capture
    → FulfillmentHold
    → ℕ
    → Text
    → CaptureFulfillmentHoldResult
    → M CaptureFulfillmentHoldResult
unfolding create_attempt
refuse c h http_status error_code result = do
  create_attempt c h false http_status none (some error_code)
  return result

abbrev pub mark_captured : Capture → FulfillmentHold → FulfillmentHold
mark_captured c h = record h {
  state = captured;
  captured_at = some c.completed_at;
  released_at = none;
  release_reason = none;
  capture_delivery_proof_id = some c.delivery_proof_id;
  capture_status_code = c.status_code;
  capture_latency_ms = c.latency_ms;
}

-- `heldCredits: { decrement: hold.cost }`, behind the guard below.
abbrev pub spend_held : ℕ → CreditBalance → CreditBalance
spend_held cost b = record b { held_credits = b.held_credits - cost }

-- The hold's row and its wallet's balance, which belong together.
unfoldable pub settle_hold : Capture → FulfillmentHold → M CreditBalance
settle_hold c h = do
  update_hold h.id (mark_captured c)
  update_balance h.wallet_address (spend_held h.cost)

-- The ledger entry, the earning and the attempt of a capture; `id` and `now` are the earning row's
-- defaults.
unfoldable pub book_capture : Env → Text → ℕ → Capture → FulfillmentHold → ℕ → ℕ → M (Unit {0})
unfolding create_attempt
book_capture env id now c h credits_before credits_after = do
  write_credit_ledger env (record {
    wallet_address = h.wallet_address;
    direction = debit;
    amount = h.cost;
    available_credits_delta = some (pos 0);
    held_credits_delta = some (neg h.cost);
    balance_before = credits_before;
    balance_after = credits_after;
    reason = codes "FULFILLMENT_CAPTURE_FINALIZED";
    service = some h.service_slug;
    nonce = none;
    request_id = some (h.ticket_id ++ codes ":capture");
  })
  amounts ← lift (calculate_settlement_amounts (pos h.cost) none none)
  settlement_id ← lift (build_fulfillment_capture_settlement_id env h.ticket_id)
  create_merchant_earning env id now (record {
    settlement_id = settlement_id;
    wallet_address = h.wallet_address;
    merchant_owner_address = h.merchant_owner_address;
    agent_id = h.agent_id;
    service_slug = h.service_slug;
    source_type = fulfillment_capture;
    source_id = h.ticket_id;
    gross_credits = h.cost;
    gross_wei = amounts.gross_wei;
    fee_wei = amounts.fee_wei;
    net_wei = amounts.net_wei;
  })
  create_attempt c h true 200 (some (codes "CAPTURED")) none

-- The bookkeeping and the answer, once the row is settled.
unfoldable pub report_capture :
    Env
    → Text
    → ℕ
    → Capture
    → FulfillmentHold
    → CreditBalance
    → CreditBalance
    → M CaptureFulfillmentHoldResult
unfolding book_capture
report_capture env id now c h b updated = do
  book_capture env id now c h b.credits updated.credits
  return (
      newly_captured (record {
        hold_id = h.id;
        captured_at = c.completed_at;
        cost = h.cost;
        credits_before = b.credits;
        credits_after = updated.credits;
        held_credits_before = b.held_credits;
        held_credits_after = updated.held_credits;
      }))

-- `if (heldCreditsBefore < cost) throw ...`.
abbrev pub held_covers : CreditBalance → FulfillmentHold → M (Unit {0})
held_covers b h = guard (leb h.cost b.held_credits) (failure "heldCredits invariant violation")

-- The writes of a capture.
unfoldable pub finalize_capture :
    Env → Text → ℕ → Capture → FulfillmentHold → CreditBalance → M CaptureFulfillmentHoldResult
unfolding settle_hold report_capture
finalize_capture env id now c h b =
    held_covers b h >> (settle_hold c h >>= report_capture env id now c h b)
