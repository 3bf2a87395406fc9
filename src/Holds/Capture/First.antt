-- ===== src/Holds/Capture/First.antt =====
-- lib/db.ts, captureFulfillmentHold: the checks that come before a capture, read back from its
-- answer.
use ghost_protocol.Prelude.{
  ℕ, ◌≡◌, refl, inl, inr, true, false, Option, none, some, Text, text_eq, is_empty, is_some, leb,
  find, arith, Bool-cases, Option-cases, ◌||◌,
}
use ghost_protocol.Prelude.Int.{is_negative}
use ghost_protocol.Store.{
  CreditBalance, FulfillmentHold, HoldState, held, captured, released, expired, Db, ok,
  Result-cases,
}
use ghost_protocol.Env.{Env}
use ghost_protocol.Credits.{normalize_address_key, find_balance}
use ghost_protocol.Holds.Capture.{
  capture_held, replay_captured, capture_by_state, is_signer_of, capture_authorized, ticket_is,
  capture_body, to_capture, is_incomplete, capture_fulfillment_hold,
}
use ghost_protocol.Holds.Settle.{
  Capture, CaptureFulfillmentHoldInput, CaptureMovement, newly_captured, create_attempt, refuse,
  finalize_capture,
}

-- What a first capture has found.
pub record IsFirst (env : Env) (id : Text) (now : ℕ) (c : Capture) (m : CaptureMovement)
    (db db' : Db) : Type 0 where
  pub hold : FulfillmentHold
  pub row : CreditBalance
  pub config : Text
  pub found : find (ticket_is c.ticket_id) db.holds ≡ some hold
  pub service : text_eq hold.service_slug c.service_slug ≡ true
  pub configured : hold.gateway_config_id ≡ some config
  pub config_set : is_empty config ≡ false
  pub signer : is_some (find (is_signer_of config c.merchant_signer) db.signers) ≡ true
  pub live : hold.state ≡ held
  pub in_time : leb hold.expires_at c.completed_at ≡ false
  pub funded : find_balance hold.wallet_address db ≡ some row
  pub finalized : finalize_capture env id now c hold row db ≡ ok (newly_captured m, db')

-- What the checks below the ticket and the service have found.
record IsLive (env : Env) (id : Text) (now : ℕ) (c : Capture) (h : FulfillmentHold)
    (m : CaptureMovement) (db db' : Db) : Type 0 where
  row : CreditBalance
  in_time : leb h.expires_at c.completed_at ≡ false
  funded : find_balance h.wallet_address db ≡ some row
  finalized : finalize_capture env id now c h row db ≡ ok (newly_captured m, db')

capture_held-IsLive :
    (env : Env) (id : Text) (now : ℕ) (c : Capture) (h : FulfillmentHold) {m : CaptureMovement}
    (db : Db) {db' : Db}
    → capture_held env id now c h db ≡ ok (newly_captured m, db')
    → IsLive env id now c h m db db'
unfolding capture_held refuse create_attempt
capture_held-IsLive env id now c h db e = elim (Bool-cases (leb h.expires_at c.completed_at)) [
  | inl late ↦ absurd (ground arith)
  | inr live ↦ elim (Option-cases (find_balance h.wallet_address db)) [
    | inl missing ↦ absurd (ground arith)
    | inr (b, funded) ↦ record {
      row = b;
      in_time = live;
      funded = funded;
      finalized = ground arith;
    }
  ]
]

replay_captured-ne :
    (c : Capture) (h : FulfillmentHold) (at : Option ℕ) {m : CaptureMovement} (db : Db) {db' : Db}
    → ¬ (replay_captured c h at db ≡ ok (newly_captured m, db'))
unfolding replay_captured refuse create_attempt
replay_captured-ne c h none db e = cc
replay_captured-ne c h (some at) db e = ground arith

capture_by_state-IsLive :
    (env : Env) (id : Text) (now : ℕ) (c : Capture) (h : FulfillmentHold) (state : HoldState)
    {m : CaptureMovement} (db : Db) {db' : Db}
    → capture_by_state env id now c h state db ≡ ok (newly_captured m, db')
    → (state ≡ held) × IsLive env id now c h m db db'
unfolding capture_by_state refuse create_attempt
capture_by_state-IsLive env id now c h captured db e =
    absurd (replay_captured-ne c h h.captured_at db e)
capture_by_state-IsLive env id now c h released db e = absurd (ground arith)
capture_by_state-IsLive env id now c h expired db e = absurd (ground arith)
capture_by_state-IsLive env id now c h held db e = (refl, capture_held-IsLive env id now c h db e)

capture_authorized-eq :
    (env : Env) (id : Text) (now : ℕ) (c : Capture) (h : FulfillmentHold) (config : Option Text)
    {m : CaptureMovement} (db : Db) {db' : Db}
    → capture_authorized env id now c h config db ≡ ok (newly_captured m, db')
    → (k : Text) × (config ≡ some k)
      × (is_empty k ≡ false)
      × (is_some (find (is_signer_of k c.merchant_signer) db.signers) ≡ true)
      × (capture_by_state env id now c h h.state db ≡ ok (newly_captured m, db'))
unfolding capture_authorized refuse create_attempt
capture_authorized-eq env id now c h none db e = absurd (ground arith)
capture_authorized-eq env id now c h (some k) db e =
    (k, refl, ground arith, ground arith, ground arith)

pub capture_body-IsFirst :
    (env : Env) (id : Text) (now : ℕ) (c : Capture) {m : CaptureMovement} (db : Db) {db' : Db}
    → capture_body env id now c db ≡ ok (newly_captured m, db')
    → IsFirst env id now c m db db'
unfolding capture_body refuse create_attempt
capture_body-IsFirst env id now c {m} db {db'} e =
    elim (Option-cases (find (ticket_is c.ticket_id) db.holds)) [
      | inl missing ↦ absurd (ground arith)
      | inr (h, found) ↦
          let checked : capture_authorized env id now c h h.gateway_config_id db
              ≡ ok (newly_captured m, db') =
            ground arith in
          let (k, configured, set, signer, passed) =
            capture_authorized-eq env id now c h h.gateway_config_id db checked in
          let (live, x) = capture_by_state-IsLive env id now c h h.state db passed in
          record {
            hold = h;
            row = x.row;
            config = k;
            found = found;
            service = ground arith;
            configured = configured;
            config_set = set;
            signer = signer;
            live = live;
            in_time = x.in_time;
            funded = x.funded;
            finalized = x.finalized;
          }
    ]

-- A call that captured had a valid signer, and its body captured.
pub capture_fulfillment_hold-IsFirst :
    (env : Env) (id : Text) (now : ℕ) (input : CaptureFulfillmentHoldInput) {m : CaptureMovement}
    (db : Db) {db' : Db}
    → capture_fulfillment_hold env id now input db ≡ (ok (newly_captured m), db')
    → (signer : Text) × (normalize_address_key env input.merchant_signer ≡ ok signer)
      × (is_incomplete (to_capture input signer) ≡ false)
      × ((is_negative input.status_code || is_negative input.latency_ms) ≡ false)
      × IsFirst env id now (to_capture input signer) m db db'
unfolding capture_fulfillment_hold
capture_fulfillment_hold-IsFirst env id now input {m} db {db'} e =
    elim (Result-cases (normalize_address_key env input.merchant_signer)) [
      | inl (x, bad) ↦ absurd (ground arith)
      | inr (signer, good) ↦ (
        signer,
        good,
        ground arith,
        ground arith,
        capture_body-IsFirst env id now (to_capture input signer) db (ground arith),
      )
    ]
