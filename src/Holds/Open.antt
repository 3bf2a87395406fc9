-- ===== src/Holds/Open.antt =====
-- lib/db.ts, createFulfillmentHold: its input and answers, and the writes of a new hold: the nonce, the
-- balance and the row, and the ledger.
use ghost_protocol.Prelude.{
  ℕ, ◌+◌, ◌-◌, ◌&&◌, Bool, true, Option, none, some, ◌∷◌, ◌++◌, Text, codes, text_eq, trim,
  to_lower_case, is_some, if◌then◌else◌, find,
}
use ghost_protocol.Prelude.Int.{ℤ, pos, neg}
use ghost_protocol.Store.{
  CreditBalance, AccessNonce, debit, FulfillmentHold, held, unique_violation, ok, err, M, ◌>>=◌,
  ◌>>◌, return,
}
use ghost_protocol.Env.{Env}
use ghost_protocol.Credits.{update_balance, write_credit_ledger, persist_access_nonce}
use ghost_protocol.Holds.{is_held, hold_id_is}

pub record CreateFulfillmentHoldInput : Type 0 where
  pub wallet_address : Text
  pub service_slug : Text
  pub agent_id : Option Text
  pub gateway_config_id : Option Text
  pub merchant_owner_address : Text
  pub request_method : Text
  pub request_path : Text
  pub query_hash : Text
  pub body_hash : Text
  pub cost : ℤ
  pub ticket_id : Text
  pub issued_at : ℕ
  pub expires_at : ℕ
  pub request_nonce : Text
  pub request_auth_issued_at_seconds : ℕ
  pub request_auth_signature : Option Text
  pub wallet_hold_cap : ℕ

pub record HoldMovement : Type 0 where
  pub hold_id : Text
  pub ticket_id : Text
  pub wallet_address : Text
  pub service_slug : Text
  pub cost : ℕ
  pub credits_before : ℕ
  pub credits_after : ℕ
  pub held_credits_before : ℕ
  pub held_credits_after : ℕ

pub data CreateFulfillmentHoldResult : Type 0 where
  created : HoldMovement → CreateFulfillmentHoldResult
  insufficient_credits : ℕ → ℕ → CreateFulfillmentHoldResult
  wallet_hold_cap_exceeded : ℕ → ℕ → CreateFulfillmentHoldResult
  wallet_service_hold_exists : CreateFulfillmentHoldResult
  replay : CreateFulfillmentHoldResult

abbrev pub same_active : Text → Text → FulfillmentHold → Bool
same_active wallet service h =
    text_eq h.wallet_address wallet && text_eq h.service_slug service && is_held h.state

-- The create of a HELD row, with the unique ids and the partial index on active holds.
unfoldable pub insert_hold : FulfillmentHold → M (Unit {0})
insert_hold h db =
    if is_some (find (hold_id_is h.id) db.holds)
    then err (unique_violation (codes "id") (codes "fulfillmentHold"))
    else if is_some (find (λ k. text_eq k.ticket_id h.ticket_id) db.holds)
    then err (unique_violation (codes "ticketId") (codes "fulfillmentHold"))
    else if is_some (find (same_active h.wallet_address h.service_slug) db.holds)
    then err (
        unique_violation (codes "FulfillmentHold_wallet_service_active_held_idx")
          (codes "fulfillmentHold"))
    else ok (tt, record db { holds = h ∷ db.holds })

-- `credits: { decrement: debit }, heldCredits: { increment: debit }`, where the credits cover it.
abbrev pub set_aside : ℕ → CreditBalance → CreditBalance
set_aside cost b = record b { credits = b.credits - cost; held_credits = b.held_credits + cost }

abbrev pub new_hold : Text → ℕ → Text → Text → ℕ → CreateFulfillmentHoldInput → FulfillmentHold
new_hold id now wallet owner cost input = record {
  id = id;
  ticket_id = to_lower_case (trim input.ticket_id);
  wallet_address = wallet;
  service_slug = input.service_slug;
  agent_id = input.agent_id;
  gateway_config_id = input.gateway_config_id;
  merchant_owner_address = owner;
  request_method = input.request_method;
  request_path = input.request_path;
  query_hash = to_lower_case (trim input.query_hash);
  body_hash = to_lower_case (trim input.body_hash);
  cost = cost;
  state = held;
  issued_at = input.issued_at;
  expires_at = input.expires_at;
  captured_at = none;
  released_at = none;
  release_reason = none;
  capture_delivery_proof_id = none;
  capture_status_code = none;
  capture_latency_ms = none;
  created_at = now;
}

-- The balance and the new row, which belong together.
unfoldable pub place_hold : Text → ℕ → FulfillmentHold → M CreditBalance
unfolding insert_hold
place_hold wallet cost h = do
  updated ← update_balance wallet (set_aside cost)
  insert_hold h
  return updated

-- The nonce that the ticket request spends.
abbrev pub ticket_nonce : Text → CreateFulfillmentHoldInput → AccessNonce
ticket_nonce wallet input = record {
  signer = wallet;
  service = codes "fulfillment_ticket:" ++ input.service_slug;
  nonce = trim input.request_nonce;
  payload_timestamp = input.request_auth_issued_at_seconds;
  signature = input.request_auth_signature;
}

-- The ledger entry and the answer, once the hold is placed.
unfoldable pub report_hold :
    Env
    → Text
    → Text
    → ℕ
    → CreateFulfillmentHoldInput
    → ℕ
    → ℕ
    → CreditBalance
    → M CreateFulfillmentHoldResult
report_hold env id wallet cost input credits_before held_before updated = do
  let ticket_id = to_lower_case (trim input.ticket_id)
  write_credit_ledger env (record {
    wallet_address = wallet;
    direction = debit;
    amount = cost;
    available_credits_delta = some (neg cost);
    held_credits_delta = some (pos cost);
    balance_before = credits_before;
    balance_after = updated.credits;
    reason = codes "FULFILLMENT_HOLD_CREATED";
    service = some input.service_slug;
    nonce = some (trim input.request_nonce);
    request_id = some ticket_id;
  })
  return (
      created (record {
        hold_id = id;
        ticket_id = ticket_id;
        wallet_address = wallet;
        service_slug = input.service_slug;
        cost = cost;
        credits_before = credits_before;
        credits_after = updated.credits;
        held_credits_before = held_before;
        held_credits_after = updated.held_credits;
      }))

-- The writes once the wallet is covered and below its cap.
unfoldable pub open_hold :
    Env
    → Text
    → ℕ
    → Text
    → Text
    → ℕ
    → CreateFulfillmentHoldInput
    → ℕ
    → ℕ
    → M CreateFulfillmentHoldResult
unfolding place_hold report_hold
open_hold env id now wallet owner cost input credits_before held_before =
    persist_access_nonce env (ticket_nonce wallet input) true
    >> (place_hold wallet cost (new_hold id now wallet owner cost input)
        >>= report_hold env id wallet cost input credits_before held_before)
