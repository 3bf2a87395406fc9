-- ===== src/Holds/Capture/Replay.antt =====
-- lib/db.ts, captureFulfillmentHold: the hold and the balance before and after a capture.
use mathlib.Core.Path.{subst}
use ghost_protocol.Prelude.{
  ap, sym, ◌∙◌, some-eq, ℕ, ◌+◌, ◌-◌, ◌<◌, ◌≡◌, refl, some, ◌∷◌, List, [], Text, text_eq_refl, leb,
  find, update, find-update_self, find-test, arith,
}
use ghost_protocol.Store.{
  CreditBalance, FulfillmentHold, held, captured, Db, ok, ◌>>=◌, >>=-eq-ok, ok-value, guard-db,
}
use ghost_protocol.Env.{Env}
use ghost_protocol.Credits.{find_balance, wallet_is, normalize_address_key}
use ghost_protocol.Credits.Balances.{credits_of, held_of}
use ghost_protocol.Holds.{hold_id_is}
use ghost_protocol.Holds.Capture.{ticket_is, to_capture, capture_fulfillment_hold}
use ghost_protocol.Holds.Settle.{
  Capture, CaptureFulfillmentHoldInput, CaptureMovement, newly_captured, mark_captured, spend_held,
  book_capture, report_capture, finalize_capture, held_covers, settle_hold,
}
use ghost_protocol.Holds.Capture.First.{IsFirst, capture_fulfillment_hold-IsFirst}
use ghost_protocol.Holds.Ids.{IsStored, find-IsStored}
use ghost_protocol.Holds.Solvency.{cost-le-held_sum}
use ghost_protocol.Holds.Solvency.Sweep.{IsSound}
use ghost_protocol.Holds.Solvency.Capture.{settle_hold-Settles, finalize_capture-Settles}

-- The movement that a finished capture answers with.
abbrev pub movement_of : Capture → FulfillmentHold → CreditBalance → CaptureMovement
movement_of c h b = record {
  hold_id = h.id;
  captured_at = c.completed_at;
  cost = h.cost;
  credits_before = b.credits;
  credits_after = b.credits;
  held_credits_before = b.held_credits;
  held_credits_after = b.held_credits - h.cost;
}

report_capture-value :
    (env : Env) (id : Text) (now : ℕ) (c : Capture) (h : FulfillmentHold) (b u : CreditBalance)
    {m : CaptureMovement} (db : Db) {db' : Db}
    → u ≡ spend_held h.cost b
    → report_capture env id now c h b u db ≡ ok (newly_captured m, db')
    → m ≡ movement_of c h b
unfolding report_capture
report_capture-value env id now c h b u {m} db spent e =
    let (_, db₁, booked, last) =
      >>=-eq-ok (book_capture env id now c h b.credits u.credits) _ db e in
    let v = ok-value last in ground arith

-- What a first capture has done, all of it read from the database before and after.
pub record Settled (c : Capture) (h : FulfillmentHold) (m : CaptureMovement) (db db' : Db)
    : Type 0 where
  pub hold : find (ticket_is c.ticket_id) db.holds ≡ some h
  pub live : h.state ≡ held
  pub in_time : c.completed_at < h.expires_at
  pub after : FulfillmentHold
  pub recorded : find (ticket_is c.ticket_id) db'.holds ≡ some after
  pub marked : after ≡ mark_captured c h
  pub is_captured : after.state ≡ captured
  pub proof : after.capture_delivery_proof_id ≡ some c.delivery_proof_id
  pub stamped : after.captured_at ≡ some c.completed_at
  pub same_id : after.id ≡ h.id
  pub same_wallet : after.wallet_address ≡ h.wallet_address
  pub same_cost : after.cost ≡ h.cost
  pub same_service : after.service_slug ≡ h.service_slug
  pub same_config : after.gateway_config_id ≡ h.gateway_config_id
  pub cost : m.cost ≡ h.cost
  pub hold_id : m.hold_id ≡ h.id
  pub captured_at : m.captured_at ≡ c.completed_at
  pub kept :
      credits_of (find_balance h.wallet_address db') ≡ credits_of (find_balance h.wallet_address db)
  pub spent :
      held_of (find_balance h.wallet_address db') + h.cost
      ≡ held_of (find_balance h.wallet_address db)

-- The hold's row after its update, found by its ticket.
find_ticket-update :
    (f : FulfillmentHold → FulfillmentHold) (t : Text) (hs : List FulfillmentHold)
    {h : FulfillmentHold}
    → ((k : FulfillmentHold) → (f k).ticket_id ≡ k.ticket_id)
    → IsStored hs h
    → find (ticket_is t) hs ≡ some h
    → find (ticket_is t) (update (hold_id_is h.id) f hs) ≡ some (f h)
unfolding find update
find_ticket-update f t [] keep stored found = cc
find_ticket-update f t (k ∷ ks) {h} keep stored found = ground (
  arith,
  keep k,
  text_eq_refl h.id,
  find-test (ticket_is t) (k ∷ ks) found,
  find_ticket-update f t ks {h = h},
)

finalize_capture-value :
    (env : Env) (id : Text) (now : ℕ) (c : Capture) (h : FulfillmentHold) (b : CreditBalance)
    {m : CaptureMovement} (db : Db) {db' : Db}
    → find_balance h.wallet_address db ≡ some b
    → finalize_capture env id now c h b db ≡ ok (newly_captured m, db')
    → m ≡ movement_of c h b
unfolding finalize_capture
finalize_capture-value env id now c h b db funded e =
    let (_, db₀, checked, k₀) =
      >>=-eq-ok (held_covers b h) (λ _. settle_hold c h >>= report_capture env id now c h b) db e in
    let same : db ≡ db₀ = guard-db (leb h.cost b.held_credits) _ db checked in
    let (u, db₁, settled, k₁) =
      >>=-eq-ok (settle_hold c h) (report_capture env id now c h b) db₀ k₀ in
    let x =
      settle_hold-Settles c h db
        (subst (λ d. settle_hold c h d ≡ ok (u, db₁)) (sym same) settled) in
    let row : x.row ≡ b = some-eq (sym x.funded ∙ funded) in
    report_capture-value env id now c h b u db₁ (x.result ∙ ap (spend_held h.cost) row) k₁

pub IsFirst-Settled :
    (env : Env) (id : Text) (now : ℕ) (c : Capture) {m : CaptureMovement} (db : Db) {db' : Db}
    → IsSound db
    → (x : IsFirst env id now c m db db') → Settled c x.hold m db db'
IsFirst-Settled env id now c {m} db {db'} s x =
    let h = x.hold in
    let (u, db₁, y, same) = finalize_capture-Settles env id now c h x.row db x.finalized in
    let v = finalize_capture-value env id now c h x.row db x.funded x.finalized in
    let stored = find-IsStored (ticket_is c.ticket_id) db.holds s.distinct x.found in
    let covered = cost-le-held_sum (hold_id_is h.id) db.holds stored (rw x.live refl) in
    let after : find_balance h.wallet_address db' ≡ some (spend_held h.cost x.row) =
      rw (same.balances, y.balances)
        (find-update_self (wallet_is h.wallet_address) (spend_held h.cost) db.balances (λ _ e. e)
          x.funded) in
    record {
      hold = x.found;
      live = x.live;
      in_time = ground (arith, x.in_time);
      after = mark_captured c h;
      marked = refl;
      is_captured = refl;
      proof = refl;
      stamped = refl;
      same_id = refl;
      same_wallet = refl;
      same_cost = refl;
      same_service = refl;
      same_config = refl;
      recorded =
          rw (same.holds, y.holds)
            (find_ticket-update (mark_captured c) c.ticket_id db.holds (λ _. refl) stored x.found);
      cost = ap (λ n. n.cost) v;
      hold_id = ap (λ n. n.hold_id) v;
      captured_at = ap (λ n. n.captured_at) v;
      kept = rw (after, x.funded) refl;
      spent = ground (arith, covered, after, x.funded, s.solvent h.wallet_address);
    }

-- If captureFulfillmentHold answers `newly_captured` from a sound database, the ticket's hold was HELD
-- and the proof completed before it expired; the hold's row is now CAPTURED, with that proof and its
-- time, and the same id, wallet, cost, service and gateway configuration; its wallet's held credits
-- are down by exactly the hold's cost, which the answer names, and its free credits are as before.
pub capture_fulfillment_hold-Settled :
    (env : Env) (id : Text) (now : ℕ) (input : CaptureFulfillmentHoldInput) {m : CaptureMovement}
    (db : Db) {db' : Db}
    → IsSound db
    → capture_fulfillment_hold env id now input db ≡ (ok (newly_captured m), db')
    → (signer : Text) × (h : FulfillmentHold) × (normalize_address_key env input.merchant_signer
        ≡ ok signer)
      × Settled (to_capture input signer) h m db db'
capture_fulfillment_hold-Settled env id now input db s e =
    let (signer, valid, _, _, x) = capture_fulfillment_hold-IsFirst env id now input db e in
    (signer, x.hold, valid, IsFirst-Settled env id now (to_capture input signer) db s x)
