-- ===== src/Holds/Solvency/Steps.antt =====
-- lib/db.ts, the expiry of one row, for the invariant.
use ghost_protocol.Prelude.{
  Text, text_eq_refl, ℕ, ◌≡◌, refl, inl, inr, true, some, find, update, arith, Option-cases,
}
use ghost_protocol.Store.{CreditBalance, FulfillmentHold, Db, ok}
use ghost_protocol.Env.{Env}
use ghost_protocol.Credits.{find_balance, wallet_is, update_balance, write_credit_ledger}
use ghost_protocol.Holds.{is_held, hold_id_is, mark_expired, give_back, expire_row}
use ghost_protocol.Holds.Solvency.{
  IsSolvent, cost-le-held_sum, close-IsSolvent, total_of, close-total_of,
}

-- What a successful expiry of one row has done.
pub record Expires (now : ℕ) (h : FulfillmentHold) (db : Db) (u : CreditBalance) (db' : Db)
    : Type 0 where
  pub row : CreditBalance
  pub funded : find_balance h.wallet_address db ≡ some row
  pub result : u ≡ give_back h.cost row
  pub holds : db'.holds ≡ update (hold_id_is h.id) (mark_expired now) db.holds
  pub balances : db'.balances ≡ update (wallet_is h.wallet_address) (give_back h.cost) db.balances

pub expire_row-Expires :
    (env : Env) (now : ℕ) (h : FulfillmentHold) (c k : ℕ) (db : Db) {u : CreditBalance} {db' : Db}
    → expire_row env now h c k db ≡ ok (u, db')
    → Expires now h db u db'
unfolding expire_row update_balance write_credit_ledger
expire_row-Expires env now h c k db e = elim (Option-cases (find_balance h.wallet_address db)) [
  | inl missing ↦ absurd (ground arith)
  | inr (b, funded) ↦ record {
    row = b;
    funded = funded;
    result = ground arith;
    holds = ground arith;
    balances = ground arith;
  }
]

pub Expires-IsSolvent :
    (now : ℕ) (h : FulfillmentHold) (db : Db) {u : CreditBalance} {db' : Db}
    → IsSolvent db
    → find (hold_id_is h.id) db.holds ≡ some h
    → is_held h.state ≡ true
    → Expires now h db u db'
    → IsSolvent db'
Expires-IsSolvent now h db {db' = db'} sol found live x =
    close-IsSolvent db db' h x.row (mark_expired now) (give_back h.cost) sol found live x.funded
      refl (λ c. refl)
      (ground (
        arith,
        sol h.wallet_address,
        cost-le-held_sum (hold_id_is h.id) db.holds found live,
        x.funded,
      ))
      x.holds x.balances

pub Expires-total_of :
    (now : ℕ) (h : FulfillmentHold) (db : Db) {u : CreditBalance} {db' : Db}
    → find (hold_id_is h.id) db.holds ≡ some h
    → is_held h.state ≡ true
    → Expires now h db u db'
    → (w : Text) → total_of w db' ≡ total_of w db
Expires-total_of now h db {db' = db'} found live x =
    close-total_of db db' h x.row (mark_expired now) (give_back h.cost) found x.funded refl
      (λ c. refl) (ground (arith, text_eq_refl h.wallet_address)) x.holds x.balances
