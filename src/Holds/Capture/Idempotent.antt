-- ===== src/Holds/Capture/Idempotent.antt =====
-- lib/db.ts, captureFulfillmentHold: a delivery proof that is sent again.
use mathlib.Core.Path.{subst}
use ghost_protocol.Prelude.{
  ℕ, ◌≡◌, refl, true, false, none, some, ◌∷◌, Text, text_eq, text_eq_refl, is_empty, is_some, find,
  arith, codes,
}
use ghost_protocol.Store.{FulfillmentHold, captured, CaptureAttempt, Db, ok, transaction}
use ghost_protocol.Env.{Env}
use ghost_protocol.Holds.Capture.{
  replay_captured, proof_matches, capture_by_state, is_signer_of, capture_authorized, ticket_is,
  capture_body, to_capture, capture_fulfillment_hold,
}
use ghost_protocol.Holds.Settle.{
  Capture, CaptureFulfillmentHoldInput, CaptureMovement, newly_captured, idempotent_replay,
  create_attempt, mark_captured,
}
use ghost_protocol.Holds.Capture.First.{capture_fulfillment_hold-IsFirst}
use ghost_protocol.Holds.Capture.Replay.{IsFirst-Settled}
use ghost_protocol.Holds.Solvency.Sweep.{IsSound}
use ghost_protocol.Holds.Solvency.Capture.{finalize_capture-signers}

-- The attempt that a replay logs.
abbrev pub replay_attempt : Capture → FulfillmentHold → CaptureAttempt
replay_attempt c h = record {
  hold_id = h.id;
  ticket_id = h.ticket_id;
  delivery_proof_id = c.delivery_proof_id;
  merchant_signer = c.merchant_signer;
  success = true;
  http_status = 200;
  capture_disposition = some (codes "IDEMPOTENT_REPLAY");
  error_code = none;
}

replay_captured-eq :
    (c : Capture) (h : FulfillmentHold) (at : ℕ) (db : Db)
    → is_empty c.delivery_proof_id ≡ false
    → h.capture_delivery_proof_id ≡ some c.delivery_proof_id
    → replay_captured c h (some at) db
      ≡ ok (idempotent_replay h.id at, record db { attempts = replay_attempt c h ∷ db.attempts })
unfolding replay_captured proof_matches create_attempt
replay_captured-eq c h at db nonempty proof =
    rw (proof, proof_matches, nonempty, text_eq_refl c.delivery_proof_id) refl

capture_body-replay :
    (env : Env) (id : Text) (now : ℕ) (c : Capture) (h : FulfillmentHold) (k : Text) (at : ℕ)
    (db : Db)
    → is_empty c.delivery_proof_id ≡ false
    → find (ticket_is c.ticket_id) db.holds ≡ some h
    → text_eq h.service_slug c.service_slug ≡ true
    → h.gateway_config_id ≡ some k
    → is_empty k ≡ false
    → is_some (find (is_signer_of k c.merchant_signer) db.signers) ≡ true
    → h.state ≡ captured
    → h.captured_at ≡ some at
    → h.capture_delivery_proof_id ≡ some c.delivery_proof_id
    → capture_body env id now c db
      ≡ ok (idempotent_replay h.id at, record db { attempts = replay_attempt c h ∷ db.attempts })
unfolding capture_body capture_authorized capture_by_state
capture_body-replay env id now c h k at db nonempty found service configured set signer state stamp
      proof =
    rw (capture_body, found, service, configured, capture_authorized, set, signer, state, stamp)
      (replay_captured-eq c h at db nonempty proof)

-- After a capture from a sound database, sending the same proof again, at any later time, is answered
-- with `idempotent_replay`, the same hold and the same capture time, and adds one row to the log of
-- attempts; no balance, hold, earning or ledger entry is written a second time.
pub capture_fulfillment_hold-idempotent :
    (env : Env) (id later_id : Text) (now later : ℕ) (input : CaptureFulfillmentHoldInput)
    {m : CaptureMovement} (db : Db) {db' : Db}
    → IsSound db
    → capture_fulfillment_hold env id now input db ≡ (ok (newly_captured m), db')
    → (a : CaptureAttempt) × (capture_fulfillment_hold env later_id later input db' ≡ (
      ok (idempotent_replay m.hold_id m.captured_at),
      record db' { attempts = a ∷ db'.attempts },
    ))
unfolding capture_fulfillment_hold
capture_fulfillment_hold-idempotent env id later_id now later input {m} db {db'} s e =
    let (signer, valid, complete, unsigned, x) =
      capture_fulfillment_hold-IsFirst env id now input db e in
    let c = to_capture input signer in
    let y = IsFirst-Settled env id now c db s x in
    let recorded : find (ticket_is c.ticket_id) db'.holds ≡ some (mark_captured c x.hold) =
      subst (λ k. find (ticket_is c.ticket_id) db'.holds ≡ some k) y.marked y.recorded in
    let again =
      capture_body-replay env later_id later c (mark_captured c x.hold) x.config c.completed_at db'
        (ground arith) recorded x.service x.configured x.config_set
        (rw (finalize_capture-signers env id now c x.hold x.row db x.finalized) x.signer) refl refl
        refl in
    (
      replay_attempt c x.hold,
      rw
          (
            valid, capture_fulfillment_hold, complete, unsigned, transaction, again, y.hold_id,
            y.captured_at,
          )
          refl,
    )
