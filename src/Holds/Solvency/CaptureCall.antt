-- ===== src/Holds/Solvency/CaptureCall.antt =====
-- lib/db.ts, captureFulfillmentHold, for the invariant: its branches, the refusals included.
use mathlib.Core.Path.{subst}
use ghost_protocol.Prelude.{
  ℕ, ◌≡◌, refl, if-keeps, ◌||◌, codes, Bool-cases, is_empty, is_some, leb, inl, inr, Option, none,
  some, Text, text_eq, find, arith, Option-cases,
}
use ghost_protocol.Prelude.Int.{is_negative}
use ghost_protocol.Store.{
  FulfillmentHold, HoldState, held, captured, released, expired, Db, ok, Result-cases,
  transaction-keeps,
}
use ghost_protocol.Env.{Env}
use ghost_protocol.Credits.{normalize_address_key, find_balance}
use ghost_protocol.Credits.Frame.{Frames, frame_rules}
use ghost_protocol.Holds.Capture.{
  replay_captured, proof_matches, is_incomplete, to_capture, ticket_is, is_signer_of, capture_held,
  capture_by_state, capture_authorized, capture_body, capture_fulfillment_hold,
}
use ghost_protocol.Holds.Settle.{
  Capture, CaptureFulfillmentHoldInput, CaptureFulfillmentHoldResult, expired_due,
}
use ghost_protocol.Holds.Ids.{IsStored, find-IsStored}
use ghost_protocol.Holds.Solvency.Sweep.{IsKept, IsDue, LeavesKept}
use ghost_protocol.Holds.Solvency.Capture.{
  SameMoney-IsKept, create_attempt-Frames, refuse-Frames, refuse-IsKept, finalize_capture-IsKept,
}

capture_held-IsKept :
    {total : Text → ℕ} (env : Env) (id : Text) (now : ℕ) (c : Capture) (h : FulfillmentHold)
    (db : Db) {r : CaptureFulfillmentHoldResult} {db' : Db}
    → IsKept total db
    → IsDue db h
    → capture_held env id now c h db ≡ ok (r, db')
    → IsKept total db'
unfolding capture_held
capture_held-IsKept {total} env id now c h db {r} {db'} s due e =
    elim (Bool-cases (leb h.expires_at c.completed_at)) [
      | inl late ↦
          refuse-IsKept c h 409 (codes "HOLD_EXPIRED") (expired_due h.id h.expires_at) db {r = r}
            {db' = db'} s (ground arith)
      | inr live ↦ elim (Option-cases (find_balance h.wallet_address db)) [
        | inl missing ↦ absurd (ground arith)
        | inr (b, funded) ↦
            finalize_capture-IsKept env id now c h b db {r = r} {db' = db'} s due (ground arith)
      ]
    ]

replay_captured-Frames :
    (c : Capture) (h : FulfillmentHold) (at : Option ℕ) → Frames (replay_captured c h at)
unfolding replay_captured
replay_captured-Frames c h none = search (refuse-Frames)
replay_captured-Frames c h (some at) =
    elim (Bool-cases (proof_matches c.delivery_proof_id h.capture_delivery_proof_id)) [
      | inl same ↦ rw same (search (frame_rules, create_attempt-Frames))
      | inr other ↦ rw other (search (refuse-Frames))
    ]

capture_by_state-IsKept :
    {total : Text → ℕ} (env : Env) (id : Text) (now : ℕ) (c : Capture) (h : FulfillmentHold)
    (state : HoldState) (db : Db) {r : CaptureFulfillmentHoldResult} {db' : Db}
    → IsKept total db
    → IsStored db.holds h
    → h.state ≡ state
    → capture_by_state env id now c h state db ≡ ok (r, db')
    → IsKept total db'
unfolding capture_by_state
capture_by_state-IsKept {total} env id now c h captured db {r} {db'} s stored is e =
    SameMoney-IsKept ((replay_captured-Frames c h h.captured_at).same db r db' e) s
capture_by_state-IsKept {total} env id now c h released db s stored is e =
    refuse-IsKept c h _ _ _ db s e
capture_by_state-IsKept {total} env id now c h expired db s stored is e =
    refuse-IsKept c h _ _ _ db s e
capture_by_state-IsKept {total} env id now c h held db s stored is e =
    capture_held-IsKept env id now c h db s (stored, rw is) e

capture_authorized-IsKept :
    {total : Text → ℕ} (env : Env) (id : Text) (now : ℕ) (c : Capture) (h : FulfillmentHold)
    (config : Option Text) (db : Db) {r : CaptureFulfillmentHoldResult} {db' : Db}
    → IsKept total db
    → IsStored db.holds h
    → capture_authorized env id now c h config db ≡ ok (r, db')
    → IsKept total db'
unfolding capture_authorized
capture_authorized-IsKept {total} env id now c h none db s stored e = refuse-IsKept c h _ _ _ db s e
capture_authorized-IsKept {total} env id now c h (some config) db s stored e =
    elim (Bool-cases (is_empty config)) [
      | inl unset ↦ refuse-IsKept c h _ _ _ db s (rw unset at e)
      | inr set ↦
          elim (Bool-cases (is_some (find (is_signer_of config c.merchant_signer) db.signers))) [
            | inl active ↦
                capture_by_state-IsKept env id now c h h.state db s stored refl
                  (rw (set, active) at e)
            | inr unknown ↦ refuse-IsKept c h _ _ _ db s (rw (set, unknown) at e)
          ]
    ]

capture_body-IsKept :
    {total : Text → ℕ} (env : Env) (id : Text) (now : ℕ) (c : Capture) (db : Db)
    {r : CaptureFulfillmentHoldResult} {db' : Db}
    → IsKept total db
    → capture_body env id now c db ≡ ok (r, db')
    → IsKept total db'
unfolding capture_body
capture_body-IsKept {total} env id now c db {r} {db'} s e =
    elim (Option-cases (find (ticket_is c.ticket_id) db.holds)) [
      | inl missing ↦ let same : db ≡ db' = ground arith in subst (IsKept total) same s
      | inr (h, found) ↦
          let stored = find-IsStored (ticket_is c.ticket_id) db.holds s.sound.distinct found in
          elim (Bool-cases (text_eq h.service_slug c.service_slug)) [
            | inl same ↦
                capture_authorized-IsKept env id now c h h.gateway_config_id db s stored
                  (rw (found, capture_body, same) at e)
            | inr other ↦ refuse-IsKept c h _ _ _ db s (rw (found, capture_body, other) at e)
          ]
    ]

pub capture_fulfillment_hold-IsKept :
    {total : Text → ℕ} (env : Env) (id : Text) (now : ℕ) (input : CaptureFulfillmentHoldInput)
    (db : Db)
    → IsKept total db
    → IsKept total (capture_fulfillment_hold env id now input db).1
unfolding capture_fulfillment_hold
capture_fulfillment_hold-IsKept {total} env id now input db s =
    elim (Result-cases (normalize_address_key env input.merchant_signer)) [
      | inl (x, e) ↦ rw (e, capture_fulfillment_hold) s
      | inr (signer, e) ↦
          rw (e, capture_fulfillment_hold)
            (if-keeps (LeavesKept total) (is_incomplete (to_capture input signer)) s (
              if-keeps (LeavesKept total)
                (is_negative input.status_code || is_negative input.latency_ms) s
                (transaction-keeps (IsKept total)
                  (capture_body env id now (to_capture input signer)) db s
                  (λ r db' done.
                    capture_body-IsKept env id now (to_capture input signer) db s done))))
    ]
