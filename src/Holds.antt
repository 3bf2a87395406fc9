-- ===== src/Holds.antt =====
-- lib/db.ts, fulfillment holds: credits set aside for a ticket until the merchant captures them or
-- the hold expires. This file has what its children share: the writes on one hold, and the sweep of
-- a wallet's overdue holds that ticket issuance begins with.
pub mod Open
pub mod Create
pub mod Settle
pub mod Capture
pub mod Expire
pub mod Ids
pub mod Solvency
use ghost_protocol.Prelude.{
  ℕ, ◌+◌, ◌-◌, Bool, true, false, ◌&&◌, ◌||◌, Option, none, some, List, [], ◌∷◌, ◌++◌, Text, codes,
  text_eq, ltb, leb, ◌==◌, find, select, update,
}
use ghost_protocol.Prelude.Int.{pos, neg}
use ghost_protocol.Prelude.Sorting.{sort_by}
use ghost_protocol.Store.{
  CreditBalance, credit, FulfillmentHold, HoldState, held, captured, released, expired, ttl_expired,
  Db, failure, record_not_found, ok, err, M, ◌>>=◌, ◌>>◌, return, get, guard,
}
use ghost_protocol.Env.{Env}
use ghost_protocol.Credits.{update_balance, write_credit_ledger}

abbrev pub is_held : HoldState → Bool
is_held held = true
is_held captured = false
is_held released = false
is_held expired = false

abbrev pub hold_id_is : Text → FulfillmentHold → Bool
hold_id_is id h = text_eq h.id id

-- `fulfillmentHold.update` by id.
unfoldable pub update_hold : Text → (FulfillmentHold → FulfillmentHold) → M (Unit {0})
update_hold id f db = elim (find (hold_id_is id) db.holds) [
  | none ↦ err record_not_found
  | some h ↦ ok (tt, record db { holds = update (hold_id_is id) f db.holds })
]

abbrev pub mark_expired : ℕ → FulfillmentHold → FulfillmentHold
mark_expired now h = record h {
  state = expired;
  released_at = some now;
  release_reason = some ttl_expired;
}

-- `credits: { increment: hold.cost }, heldCredits: { decrement: hold.cost }`, behind the guard below.
abbrev pub give_back : ℕ → CreditBalance → CreditBalance
give_back cost b = record b { credits = b.credits + cost; held_credits = b.held_credits - cost }

-- One overdue hold: its row, its wallet's balance, and the ledger entry. `credits_before` and
-- `held_before` are what the caller read.
unfoldable pub expire_row : Env → ℕ → FulfillmentHold → ℕ → ℕ → M CreditBalance
unfolding update_hold
expire_row env now h credits_before held_before = do
  guard (leb h.cost held_before) (failure "heldCredits invariant violation")
  update_hold h.id (mark_expired now)
  updated ← update_balance h.wallet_address (give_back h.cost)
  write_credit_ledger env (record {
    wallet_address = h.wallet_address;
    direction = credit;
    amount = h.cost;
    available_credits_delta = some (pos h.cost);
    held_credits_delta = some (neg h.cost);
    balance_before = credits_before;
    balance_after = updated.credits;
    reason = codes "FULFILLMENT_HOLD_EXPIRED";
    service = some h.service_slug;
    nonce = none;
    request_id = some (h.ticket_id ++ codes ":expire");
  })
  return updated

-- ORDER BY "expiresAt" ASC, "createdAt" ASC; the order of ties is the table's.
abbrev pub expires_before : FulfillmentHold → FulfillmentHold → Bool
expires_before h k =
    ltb h.expires_at k.expires_at || (h.expires_at == k.expires_at && leb h.created_at k.created_at)

abbrev pub is_overdue : Text → ℕ → FulfillmentHold → Bool
is_overdue wallet now h = text_eq h.wallet_address wallet && is_held h.state && leb h.expires_at now

unfoldable pub overdue_holds : Text → ℕ → Db → List FulfillmentHold
overdue_holds wallet now db = sort_by expires_before (select (is_overdue wallet now) db.holds)

unfoldable pub expire_rows : Env → ℕ → List FulfillmentHold → ℕ → ℕ → M (ℕ × ℕ)
unfolding expire_row
expire_rows env now [] credits held_credits = return (credits, held_credits)
expire_rows env now (h ∷ hs) credits held_credits = do
  updated ← expire_row env now h credits held_credits
  expire_rows env now hs updated.credits updated.held_credits

unfoldable pub expire_overdue_held_fulfillment_holds_for_wallet : Env → Text → ℕ → ℕ → ℕ → M (ℕ × ℕ)
unfolding overdue_holds expire_rows
expire_overdue_held_fulfillment_holds_for_wallet env wallet now credits held_credits = do
  db ← get
  expire_rows env now (overdue_holds wallet now db) credits held_credits
