-- ===== src/Holds/Expire/Refund.antt =====
-- lib/db.ts, expireFulfillmentHoldById: the hold and the balance of an expiry.
use mathlib.Core.Path.{subst}
use ghost_protocol.Prelude.{
  sym, ℕ, ◌+◌, ◌≤◌, ◌≡◌, refl, inl, inr, true, some, Text, find, update, find-update_self,
  find-test, text_eq_iff, arith, Option-cases,
}
use ghost_protocol.Store.{
  CreditBalance, FulfillmentHold, expired, ttl_expired, Db, ok, return, >>=-eq-ok, ok-db, ok-value,
  transaction-eq-ok,
}
use ghost_protocol.Env.{Env}
use ghost_protocol.Credits.{find_balance, wallet_is}
use ghost_protocol.Credits.Balances.{credits_of, held_of}
use ghost_protocol.Holds.{is_held, hold_id_is, mark_expired, give_back, expire_row}
use ghost_protocol.Holds.Expire.{
  ExpiredHold, expired_item, expiry_of, expire_locked, expire_found, expire_body,
  expire_fulfillment_hold_by_id,
}
use ghost_protocol.Holds.Solvency.{cost-le-held_sum}
use ghost_protocol.Holds.Solvency.Steps.{Expires, expire_row-Expires}
use ghost_protocol.Holds.Solvency.Sweep.{IsSound}

-- What the expiry of one hold has done.
pub record Refunded (id : Text) (now : ℕ) (x : ExpiredHold) (h : FulfillmentHold) (db db' : Db)
    : Type 0 where
  pub hold : find (hold_id_is id) db.holds ≡ some h
  pub live : is_held h.state ≡ true
  pub due : h.expires_at ≤ now
  pub cost : x.cost ≡ h.cost
  pub after : FulfillmentHold
  pub recorded : find (hold_id_is id) db'.holds ≡ some after
  pub is_expired : after.state ≡ expired
  pub reason : after.release_reason ≡ some ttl_expired
  pub released_at : after.released_at ≡ some now
  pub same_wallet : after.wallet_address ≡ h.wallet_address
  pub same_cost : after.cost ≡ h.cost
  pub credited :
      credits_of (find_balance h.wallet_address db')
      ≡ credits_of (find_balance h.wallet_address db) + h.cost
  pub released :
      held_of (find_balance h.wallet_address db') + h.cost
      ≡ held_of (find_balance h.wallet_address db)

expire_found-eq :
    (env : Env) (now : ℕ) (h : FulfillmentHold) (db : Db) {x : ExpiredHold} {db' : Db}
    → expire_found env now h db ≡ ok (expired_item x, db')
    → (is_held h.state ≡ true)
      × (h.expires_at ≤ now)
      × (b : CreditBalance) × (find_balance h.wallet_address db ≡ some b)
      × (expire_locked env now h b db ≡ ok (expired_item x, db'))
unfolding expire_found
expire_found-eq env now h db e = elim (Option-cases (find_balance h.wallet_address db)) [
  | inl missing ↦ absurd (ground arith)
  | inr (b, funded) ↦ (ground arith, ground arith, b, funded, ground arith)
]

expire_locked-eq :
    (env : Env) (now : ℕ) (h : FulfillmentHold) (b : CreditBalance) (db : Db) {x : ExpiredHold}
    {db' : Db}
    → expire_locked env now h b db ≡ ok (expired_item x, db')
    → (u : CreditBalance) × Expires now h db u db' × (x.cost ≡ h.cost)
unfolding expire_locked
expire_locked-eq env now h b db {x} {db'} e =
    let (u, db₁, first, last) =
      >>=-eq-ok (expire_row env now h b.credits b.held_credits) (λ u. return (expiry_of h b u)) db
        e in
    let v = ok-value last in
    (
      u,
      rw (ok-db last) at (expire_row-Expires env now h b.credits b.held_credits db first),
      ground arith,
    )

Expires-Refunded :
    (id : Text) (now : ℕ) (x : ExpiredHold) (h : FulfillmentHold) (db : Db) {u : CreditBalance}
    {db' : Db}
    → IsSound db
    → find (hold_id_is id) db.holds ≡ some h
    → is_held h.state ≡ true
    → h.expires_at ≤ now
    → x.cost ≡ h.cost
    → Expires now h db u db'
    → Refunded id now x h db db'
Expires-Refunded id now x h db {db' = db'} s found live due priced y =
    let its : h.id ≡ id = (text_eq_iff h.id id).0 (find-test (hold_id_is id) db.holds found) in
    let covered = cost-le-held_sum (hold_id_is id) db.holds found live in
    let after : find_balance h.wallet_address db' ≡ some (give_back h.cost y.row) = rw y.balances (
      find-update_self (wallet_is h.wallet_address) (give_back h.cost) db.balances (λ _ e. e)
        y.funded) in
    record {
      hold = found;
      live = live;
      due = due;
      cost = priced;
      after = mark_expired now h;
      is_expired = refl;
      reason = refl;
      released_at = refl;
      same_wallet = refl;
      same_cost = refl;
      recorded = rw y.holds (
          stays its
            (find-update_self (hold_id_is id) (mark_expired now) db.holds (λ _ e. e) found));
      credited = ground (arith, after, y.funded);
      released = ground (arith, covered, after, y.funded, s.solvent h.wallet_address);
    }
  where
    stays :
        h.id ≡ id
        → find (hold_id_is id) (update (hold_id_is id) (mark_expired now) db.holds)
          ≡ some (mark_expired now h)
        → find (hold_id_is id) (update (hold_id_is h.id) (mark_expired now) db.holds)
          ≡ some (mark_expired now h)
    stays its e =
        subst
          (λ k.
            find (hold_id_is id) (update (hold_id_is k) (mark_expired now) db.holds)
            ≡ some (mark_expired now h))
          (sym its) e

-- If the expiry of a hold answers that it released it, from a sound database, then the hold was HELD
-- and due; its row is now EXPIRED by its time limit, with the same wallet and cost, and exactly its
-- cost has moved from its wallet's held credits to its free ones.
pub expire_fulfillment_hold_by_id-Refunded :
    (env : Env) (id : Text) (now : ℕ) (db : Db) {x : ExpiredHold} {db' : Db}
    → IsSound db
    → expire_fulfillment_hold_by_id env id now db ≡ (ok (expired_item x), db')
    → (h : FulfillmentHold) × Refunded id now x h db db'
unfolding expire_fulfillment_hold_by_id expire_body
expire_fulfillment_hold_by_id-Refunded env id now db {x} {db'} s e =
    let ran = transaction-eq-ok (expire_body env id now) db e in
    elim (Option-cases (find (hold_id_is id) db.holds)) [
      | inl missing ↦ absurd (ground arith)
      | inr (h, found) ↦
          let (live, due, b, funded, k) =
            expire_found-eq env now h db {x = x} {db' = db'} (ground arith) in
          let (u, y, priced) = expire_locked-eq env now h b db k in
          (h, Expires-Refunded id now x h db s found live due priced y)
    ]
