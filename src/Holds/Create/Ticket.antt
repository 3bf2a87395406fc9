-- ===== src/Holds/Create/Ticket.antt =====
-- lib/db.ts, createFulfillmentHold: the checks of an issued ticket, and the wallet afterwards.
use mathlib.Core.Path.{subst}
use ghost_protocol.Prelude.{
  ap, sym, ◌∙◌, ℕ, ◌+◌, ◌-◌, ◌≤◌, ◌<◌, ◌≡◌, refl, inl, inr, some, Text, text_eq_refl, find, count,
  ltb, leb, arith, Bool-cases, Option-cases, count-of_find-none,
}
use ghost_protocol.Store.{
  CreditBalance, FulfillmentHold, held, Db, Result, ok, err, >>=-eq-ok, Result-cases,
}
use ghost_protocol.Env.{Env}
use ghost_protocol.Credits.{normalize_address_key, to_prisma_int, find_balance}
use ghost_protocol.Credits.Balances.{credits_of, held_of}
use ghost_protocol.Holds.{expire_overdue_held_fulfillment_holds_for_wallet}
use ghost_protocol.Holds.Capture.{ticket_is}
use ghost_protocol.Holds.Create.{
  hold_swept, hold_if_covered, hold_body, hold_call, replay_or_exists, create_fulfillment_hold,
  is_active_hold,
}
use ghost_protocol.Holds.Open.{
  CreateFulfillmentHoldInput, CreateFulfillmentHoldResult, HoldMovement, created, same_active,
  new_hold,
}
use ghost_protocol.Holds.Create.Placed.{Opened, open_hold-Opened}
use ghost_protocol.Holds.Solvency.Sweep.{Reads, row-Reads, expire_overdue-Reads}

-- What the checks of an issued ticket have found in the swept database.
record IsCovered (id : Text) (now : ℕ) (wallet owner : Text) (cost : ℕ)
    (input : CreateFulfillmentHoldInput) (m : HoldMovement) (swept db' : Db) : Type 0 where
  opened : Opened id now wallet owner cost input m swept db'
  read : m.credits_before ≡ opened.row.credits
  read_held : m.held_credits_before ≡ opened.row.held_credits
  covered : cost ≤ m.credits_before
  room : count (is_active_hold wallet) swept.holds < input.wallet_hold_cap

hold_if_covered-IsCovered :
    (env : Env) (id : Text) (now : ℕ) (wallet owner : Text) (cost : ℕ)
    (input : CreateFulfillmentHoldInput) (c k : ℕ) (db : Db) {m : HoldMovement} {db' : Db}
    → Reads wallet c k db
    → hold_if_covered env id now wallet owner cost input c k db ≡ ok (created m, db')
    → IsCovered id now wallet owner cost input m db db'
      × (m.credits_before ≡ c)
      × (m.held_credits_before ≡ k)
unfolding hold_if_covered
hold_if_covered-IsCovered env id now wallet owner cost input c k db {m} {db'} reads e =
    elim (Bool-cases (ltb c cost)) [
      | inl short ↦ absurd (ground arith)
      | inr enough ↦
          elim (Bool-cases (leb input.wallet_hold_cap (count (is_active_hold wallet) db.holds))) [
            | inl full ↦ absurd (ground arith)
            | inr room ↦
                let (x, before, before_held) =
                  open_hold-Opened env id now wallet owner cost input c k db {m = m} {db' = db'}
                    (ground arith) in
                (
                  record {
                    opened = x;
                    read = before ∙ sym (reads x.row x.funded).0;
                    read_held = before_held ∙ sym (reads x.row x.funded).1;
                    covered = ground arith;
                    room = ground arith;
                  },
                  before,
                  before_held,
                )
          ]
    ]

-- The wallet's row, the sweep of its overdue holds, and what follows the sweep.
record Issued (env : Env) (id : Text) (now : ℕ) (wallet owner : Text) (cost : ℕ)
    (input : CreateFulfillmentHoldInput) (m : HoldMovement) (db db' : Db) : Type 0 where
  row : CreditBalance
  swept : Db
  there : find_balance wallet db ≡ some row
  swept_by :
      expire_overdue_held_fulfillment_holds_for_wallet env wallet now row.credits row.held_credits
        db
      ≡ ok ((m.credits_before, m.held_credits_before), swept)
  covered : IsCovered id now wallet owner cost input m swept db'

hold_body-IsCovered :
    (env : Env) (id : Text) (now : ℕ) (wallet owner : Text) (cost : ℕ)
    (input : CreateFulfillmentHoldInput) (db : Db) {m : HoldMovement} {db' : Db}
    → hold_body env id now wallet owner cost input db ≡ ok (created m, db')
    → Issued env id now wallet owner cost input m db db'
unfolding hold_body
hold_body-IsCovered env id now wallet owner cost input db e =
    elim (Option-cases (find_balance wallet db)) [
      | inl missing ↦ absurd (ground arith)
      | inr (b, funded) ↦
          let (swept, db₁, first, rest) =
            >>=-eq-ok
              (expire_overdue_held_fulfillment_holds_for_wallet env wallet now b.credits
                b.held_credits)
              (hold_swept env id now wallet owner cost input) db (rw (funded, hold_body) at e) in
          let (x, before, before_held) =
            hold_if_covered-IsCovered env id now wallet owner cost input swept.0 swept.1 db₁
              (expire_overdue-Reads env wallet now b.credits b.held_credits db
                (row-Reads wallet db funded) first)
              rest in
          record {
            row = b;
            swept = db₁;
            there = funded;
            swept_by = rw (before, before_held) first;
            covered = x;
          }
    ]

replay_or_exists-created :
    (r : Result CreateFulfillmentHoldResult) {m : HoldMovement}
    → replay_or_exists r ≡ ok (created m)
    → r ≡ ok (created m)
unfolding replay_or_exists
replay_or_exists-created (ok r) e = e
replay_or_exists-created (err x) e = ground arith

hold_call-IsCovered :
    (env : Env) (id : Text) (now : ℕ) (wallet owner : Text) (cost : ℕ)
    (input : CreateFulfillmentHoldInput) (db : Db) {m : HoldMovement} {db' : Db}
    → hold_call env id now wallet owner cost input db ≡ (ok (created m), db')
    → Issued env id now wallet owner cost input m db db'
unfolding hold_call
hold_call-IsCovered env id now wallet owner cost input db {m} {db'} e =
    elim (Result-cases (hold_body env id now wallet owner cost input db)) [
      | inl (x, failed) ↦ absurd (ground (arith, replay_or_exists-created (err x) {m = m}))
      | inr ((r, db₁), done) ↦
          hold_body-IsCovered env id now wallet owner cost input db {m = m} {db' = db'}
            (ground (arith, replay_or_exists-created (ok r) {m = m}))
    ]

-- What the caller and the wallet have after a ticket was issued.
pub record Ticketed (env : Env) (id : Text) (now : ℕ) (input : CreateFulfillmentHoldInput)
    (m : HoldMovement) (db db' : Db) : Type 0 where
  pub owner : Text
  pub wallet : normalize_address_key env input.wallet_address ≡ ok m.wallet_address
  pub cost : to_prisma_int input.cost ≡ ok m.cost
  pub swept : Db
  pub row : CreditBalance
  pub swept_row : CreditBalance
  pub there : find_balance m.wallet_address db ≡ some row
  pub swept_by :
      expire_overdue_held_fulfillment_holds_for_wallet env m.wallet_address now row.credits
        row.held_credits db
      ≡ ok ((m.credits_before, m.held_credits_before), swept)
  pub left : find_balance m.wallet_address swept ≡ some swept_row
  pub credits_before : m.credits_before ≡ swept_row.credits
  pub held_credits_before : m.held_credits_before ≡ swept_row.held_credits
  pub paid : m.credits_after + m.cost ≡ m.credits_before
  pub added : m.held_credits_after ≡ m.held_credits_before + m.cost
  pub credits : credits_of (find_balance m.wallet_address db') ≡ m.credits_after
  pub held_credits : held_of (find_balance m.wallet_address db') ≡ m.held_credits_after
  pub hold : FulfillmentHold
  pub stored : find (ticket_is m.ticket_id) db'.holds ≡ some hold
  pub is_held : hold.state ≡ held
  pub hold_cost : hold.cost ≡ m.cost
  pub hold_wallet : hold.wallet_address ≡ m.wallet_address
  pub hold_service : hold.service_slug ≡ input.service_slug
  pub hold_owner : hold.merchant_owner_address ≡ owner
  pub hold_expiry : hold.expires_at ≡ input.expires_at
  pub capped : count (is_active_hold m.wallet_address) db'.holds ≤ input.wallet_hold_cap
  pub only : count (same_active m.wallet_address input.service_slug) db'.holds ≡ 1

IsCovered-Ticketed :
    (env : Env) (id : Text) (now : ℕ) (wallet owner : Text) (cost : ℕ)
    (input : CreateFulfillmentHoldInput) {m : HoldMovement} (db db' : Db)
    → normalize_address_key env input.wallet_address ≡ ok wallet
    → to_prisma_int input.cost ≡ ok cost
    → Issued env id now wallet owner cost input m db db'
    → Ticketed env id now input m db db'
unfolding find count
IsCovered-Ticketed env id now wallet owner cost input {m} db db' known priced i =
    let x = i.covered in
    let y = x.opened in
    let h : FulfillmentHold = new_hold id now wallet owner cost input in
    let its : m.wallet_address ≡ wallet = ap (λ n. n.wallet_address) y.answer in
    let costs : m.cost ≡ cost = ap (λ n. n.cost) y.answer in
    let named : m.ticket_id ≡ h.ticket_id = ap (λ n. n.ticket_id) y.answer in
    let left : m.credits_after ≡ y.row.credits - cost = ap (λ n. n.credits_after) y.answer in
    let kept : m.held_credits_after ≡ y.row.held_credits + cost =
      ap (λ n. n.held_credits_after) y.answer in
    record {
      owner = owner;
      wallet = rw its known;
      cost = rw costs priced;
      swept = i.swept;
      row = i.row;
      swept_row = y.row;
      there = rw its i.there;
      swept_by = rw its i.swept_by;
      left = rw its y.funded;
      credits_before = x.read;
      held_credits_before = x.read_held;
      paid = ground (arith, left, costs, x.read, x.covered);
      added = ground (arith, kept, costs, x.read_held);
      credits = rw (its, y.after, left) refl;
      held_credits = rw (its, y.after, kept) refl;
      hold = h;
      stored =
          subst (λ t. find (ticket_is t) db'.holds ≡ some h) (sym named)
            (rw (y.holds, find, text_eq_refl h.ticket_id) refl);
      is_held = refl;
      hold_cost = sym costs;
      hold_wallet = sym its;
      hold_service = refl;
      hold_owner = refl;
      hold_expiry = refl;
      capped =
          subst (λ w. count (is_active_hold w) db'.holds ≤ input.wallet_hold_cap) (sym its)
            (rw (y.holds, count) (ground (arith, x.room, text_eq_refl wallet)));
      only =
          subst (λ w. count (same_active w input.service_slug) db'.holds ≡ 1) (sym its)
            (rw (y.holds, count)
              (ground (
                arith,
                text_eq_refl wallet,
                text_eq_refl input.service_slug,
                count-of_find-none (same_active wallet input.service_slug) i.swept.holds y.vacant,
              )));
    }

-- If createFulfillmentHold answers `created`, then, from what the sweep of the wallet's overdue holds
-- left it, exactly the cost has left its free credits, which covered it, and been added to its held
-- credits, with the balance row as the answer says; the ticket now finds the new hold, HELD, with that
-- cost; the wallet has no more HELD holds than its cap allows; and it has exactly one at the service.
pub create_fulfillment_hold-Ticketed :
    (env : Env) (id : Text) (now : ℕ) (input : CreateFulfillmentHoldInput) {m : HoldMovement}
    (db : Db) {db' : Db}
    → create_fulfillment_hold env id now input db ≡ (ok (created m), db')
    → Ticketed env id now input m db db'
unfolding create_fulfillment_hold
create_fulfillment_hold-Ticketed env id now input {m} db {db'} e =
    elim (Result-cases (normalize_address_key env input.wallet_address)) [
      | inl (x, bad) ↦ absurd (ground arith)
      | inr (wallet, known) ↦
          elim (Result-cases (normalize_address_key env input.merchant_owner_address)) [
            | inl (x, bad) ↦ absurd (ground arith)
            | inr (owner, merchant) ↦ elim (Result-cases (to_prisma_int input.cost)) [
              | inl (x, bad) ↦ absurd (ground arith)
              | inr (cost, priced) ↦
                  IsCovered-Ticketed env id now wallet owner cost input db db' known priced
                    (hold_call-IsCovered env id now wallet owner cost input db (ground arith))
            ]
          ]
    ]
