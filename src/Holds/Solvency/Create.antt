-- ===== src/Holds/Solvency/Create.antt =====
-- lib/db.ts, createFulfillmentHold, for the invariant: its branches and its transaction.
use mathlib.Core.Path.{subst}
use ghost_protocol.Prelude.{
  ℕ, ◌≤◌, ◌≡◌, refl, inl, inr, not, true, Text, arith, Option-cases, Bool-cases, if-keeps, ltb, leb,
  count, ◌==◌,
}
use ghost_protocol.Prelude.Int.{is_positive}
use ghost_protocol.Store.{
  CreditBalance, FulfillmentHold, Db, ok, ◌>>=◌, >>=-eq-ok, transaction-keeps, on_ok-keeps,
}
use ghost_protocol.Env.{Env}
use ghost_protocol.Credits.{
  persist_access_nonce, normalize_address_key, to_prisma_int, find_balance,
}
use ghost_protocol.Credits.Frame.{Frames, frame_rules, persist_access_nonce-Frames}
use ghost_protocol.Holds.{expire_overdue_held_fulfillment_holds_for_wallet}
use ghost_protocol.Holds.Create.{
  hold_swept, hold_if_covered, hold_body, hold_call, create_fulfillment_hold, is_active_hold,
}
use ghost_protocol.Holds.Open.{
  CreateFulfillmentHoldInput, CreateFulfillmentHoldResult, new_hold, place_hold, report_hold,
  ticket_nonce, open_hold,
}
use ghost_protocol.Holds.Solvency.Sweep.{
  IsKept, LeavesKept, Reads, row-Reads, expire_overdue-Reads, expire_overdue-IsKept,
}
use ghost_protocol.Holds.Solvency.Capture.{SameMoney-IsKept}
use ghost_protocol.Holds.Solvency.Place.{place_hold-Places, Places-IsKept}

pub report_hold-Frames :
    (env : Env) (id wallet : Text) (cost : ℕ) (input : CreateFulfillmentHoldInput) (c k : ℕ)
    (u : CreditBalance)
    → Frames (report_hold env id wallet cost input c k u)
unfolding report_hold
report_hold-Frames env id wallet cost input c k u = search frame_rules

pub open_hold-IsKept :
    {total : Text → ℕ} (env : Env) (id : Text) (now : ℕ) (wallet owner : Text) (cost : ℕ)
    (input : CreateFulfillmentHoldInput) (c k : ℕ) (db : Db) {r : CreateFulfillmentHoldResult}
    {db' : Db}
    → Reads wallet c k db
    → cost ≤ c
    → IsKept total db
    → open_hold env id now wallet owner cost input c k db ≡ ok (r, db')
    → IsKept total db'
unfolding open_hold
open_hold-IsKept {total} env id now wallet owner cost input c k db {r} {db'} reads enough s e =
    let h : FulfillmentHold = new_hold id now wallet owner cost input in
    let tail = report_hold env id wallet cost input c k in
    let (a, db₁, spent, rest) =
      >>=-eq-ok (persist_access_nonce env (ticket_nonce wallet input) true)
        (λ _. place_hold wallet cost h >>= tail) db e in
    let same = (persist_access_nonce-Frames env _ true).same db a db₁ spent in
    let same_balances : db₁.balances ≡ db.balances = same.balances in
    let s₁ = SameMoney-IsKept same s in
    let (u, db₂, placed, last) = >>=-eq-ok (place_hold wallet cost h) tail db₁ rest in
    let x = place_hold-Places wallet cost h db₁ placed in
    SameMoney-IsKept ((report_hold-Frames env id wallet cost input c k u).same db₂ r db' last) (
      Places-IsKept wallet cost h db₁ refl refl refl
        (λ b there. let (credits, _) = reads b (rw same_balances at there) in ground arith) s₁ x)

hold_if_covered-IsKept :
    {total : Text → ℕ} (env : Env) (id : Text) (now : ℕ) (wallet owner : Text) (cost : ℕ)
    (input : CreateFulfillmentHoldInput) (c k : ℕ) (db : Db) {r : CreateFulfillmentHoldResult}
    {db' : Db}
    → Reads wallet c k db
    → IsKept total db
    → hold_if_covered env id now wallet owner cost input c k db ≡ ok (r, db')
    → IsKept total db'
unfolding hold_if_covered
hold_if_covered-IsKept {total} env id now wallet owner cost input c k db {r} {db'} reads s e =
    elim (Bool-cases (ltb c cost)) [
      | inl short ↦ let same : db ≡ db' = ground arith in subst (IsKept total) same s
      | inr enough ↦
          elim (Bool-cases (leb input.wallet_hold_cap (count (is_active_hold wallet) db.holds))) [
            | inl full ↦ let same : db ≡ db' = ground arith in subst (IsKept total) same s
            | inr room ↦
                open_hold-IsKept env id now wallet owner cost input c k db {r = r} {db' = db'} reads
                  (ground arith) s (ground arith)
          ]
    ]

hold_body-IsKept :
    {total : Text → ℕ} (env : Env) (id : Text) (now : ℕ) (wallet owner : Text) (cost : ℕ)
    (input : CreateFulfillmentHoldInput) (db : Db) {r : CreateFulfillmentHoldResult} {db' : Db}
    → IsKept total db
    → hold_body env id now wallet owner cost input db ≡ ok (r, db')
    → IsKept total db'
unfolding hold_body
hold_body-IsKept {total} env id now wallet owner cost input db {r} {db'} s e =
    elim (Option-cases (find_balance wallet db)) [
      | inl missing ↦ let same : db ≡ db' = ground arith in subst (IsKept total) same s
      | inr (b, funded) ↦
          let (swept, db₁, first, rest) =
            >>=-eq-ok
              (expire_overdue_held_fulfillment_holds_for_wallet env wallet now b.credits
                b.held_credits)
              (hold_swept env id now wallet owner cost input) db (rw (funded, hold_body) at e) in
          hold_if_covered-IsKept env id now wallet owner cost input swept.0 swept.1 db₁
            (expire_overdue-Reads env wallet now b.credits b.held_credits db
              (row-Reads wallet db funded) first)
            (expire_overdue-IsKept env wallet now b.credits b.held_credits db s first) rest
    ]

hold_call-IsKept :
    {total : Text → ℕ} (env : Env) (id : Text) (now : ℕ) (wallet owner : Text) (cost : ℕ)
    (input : CreateFulfillmentHoldInput) (db : Db)
    → IsKept total db
    → LeavesKept total (hold_call env id now wallet owner cost input db)
unfolding hold_call
hold_call-IsKept {total} env id now wallet owner cost input db s =
    transaction-keeps (IsKept total) (hold_body env id now wallet owner cost input) db s
      (λ r db' done. hold_body-IsKept env id now wallet owner cost input db s done)

pub create_fulfillment_hold-IsKept :
    {total : Text → ℕ} (env : Env) (id : Text) (now : ℕ) (input : CreateFulfillmentHoldInput)
    (db : Db)
    → IsKept total db
    → IsKept total (create_fulfillment_hold env id now input db).1
unfolding create_fulfillment_hold
create_fulfillment_hold-IsKept {total} env id now input db s =
    if-keeps (LeavesKept total) (not (is_positive input.cost)) s (
      if-keeps (LeavesKept total) (input.wallet_hold_cap == 0) s (
        on_ok-keeps (LeavesKept total) (normalize_address_key env input.wallet_address) db _
          (λ _. s)
          λ wallet.
            on_ok-keeps (LeavesKept total) (normalize_address_key env input.merchant_owner_address)
              db _ (λ _. s)
              λ owner.
                on_ok-keeps (LeavesKept total) (to_prisma_int input.cost) db _ (λ _. s)
                  λ cost. hold_call-IsKept env id now wallet owner cost input db s))
