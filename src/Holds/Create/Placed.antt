-- ===== src/Holds/Create/Placed.antt =====
-- lib/db.ts, createFulfillmentHold: the writes of an issued ticket, read back from its answer.
use ghost_protocol.Prelude.{
  ap, ℕ, ◌≡◌, refl, true, none, some, ◌∷◌, Text, find, find-update_self, arith, to_lower_case, trim,
}
use ghost_protocol.Store.{
  CreditBalance, FulfillmentHold, Db, ok, ◌>>=◌, return, >>=-eq-ok, ok-value,
}
use ghost_protocol.Env.{Env}
use ghost_protocol.Credits.{find_balance, wallet_is, persist_access_nonce, write_credit_ledger}
use ghost_protocol.Credits.Frame.{SameMoney, persist_access_nonce-Frames}
use ghost_protocol.Holds.Open.{
  CreateFulfillmentHoldInput, HoldMovement, created, same_active, set_aside, new_hold, place_hold,
  report_hold, ticket_nonce, open_hold,
}
use ghost_protocol.Holds.Solvency.Create.{report_hold-Frames}
use ghost_protocol.Holds.Solvency.Place.{Places, place_hold-Places}

-- The movement of a ticket, with the credits that the sweep has left.
abbrev pub movement_of :
    Text → Text → ℕ → CreateFulfillmentHoldInput → ℕ → ℕ → CreditBalance → HoldMovement
movement_of id wallet cost input c k u = record {
  hold_id = id;
  ticket_id = to_lower_case (trim input.ticket_id);
  wallet_address = wallet;
  service_slug = input.service_slug;
  cost = cost;
  credits_before = c;
  credits_after = u.credits;
  held_credits_before = k;
  held_credits_after = u.held_credits;
}

report_hold-value :
    (env : Env) (id wallet : Text) (cost : ℕ) (input : CreateFulfillmentHoldInput) (c k : ℕ)
    (u : CreditBalance) {m : HoldMovement} (db : Db) {db' : Db}
    → report_hold env id wallet cost input c k u db ≡ ok (created m, db')
    → m ≡ movement_of id wallet cost input c k u
unfolding report_hold
report_hold-value env id wallet cost input c k u {m} db e =
    let (_, db₁, booked, last) =
      >>=-eq-ok (write_credit_ledger env _)
        (λ _. return (created (movement_of id wallet cost input c k u))) db e in
    let v = ok-value last in ground arith

-- What an issued ticket has done to the swept database.
pub record Opened (id : Text) (now : ℕ) (wallet owner : Text) (cost : ℕ)
    (input : CreateFulfillmentHoldInput) (m : HoldMovement) (db db' : Db) : Type 0 where
  pub row : CreditBalance
  pub funded : find_balance wallet db ≡ some row
  pub after : find_balance wallet db' ≡ some (set_aside cost row)
  pub holds : db'.holds ≡ new_hold id now wallet owner cost input ∷ db.holds
  pub vacant : find (same_active wallet input.service_slug) db.holds ≡ none
  pub answer :
      m
      ≡ movement_of id wallet cost input m.credits_before m.held_credits_before (set_aside cost row)

Places-Opened :
    (id : Text) (now : ℕ) (wallet owner : Text) (cost : ℕ) (input : CreateFulfillmentHoldInput)
    (c k : ℕ) {m : HoldMovement} {u : CreditBalance} {db db₁ db₂ db' : Db}
    → SameMoney db db₁
    → Places wallet cost (new_hold id now wallet owner cost input) db₁ u db₂
    → SameMoney db₂ db'
    → m ≡ movement_of id wallet cost input c k u
    → Opened id now wallet owner cost input m db db'
Places-Opened id now wallet owner cost input c k {db₁ = db₁} same x same₂ v = record {
  row = x.row;
  funded = rw same.balances at x.funded;
  after =
      rw (same₂.balances, x.balances)
        (find-update_self (wallet_is wallet) (set_aside cost) db₁.balances (λ _ e. e) x.funded);
  holds = rw (same₂.holds, x.holds, same.holds) refl;
  vacant = rw same.holds at x.vacant;
  answer = rw (v, x.result) refl;
}

pub open_hold-Opened :
    (env : Env) (id : Text) (now : ℕ) (wallet owner : Text) (cost : ℕ)
    (input : CreateFulfillmentHoldInput) (c k : ℕ) (db : Db) {m : HoldMovement} {db' : Db}
    → open_hold env id now wallet owner cost input c k db ≡ ok (created m, db')
    → Opened id now wallet owner cost input m db db'
      × (m.credits_before ≡ c)
      × (m.held_credits_before ≡ k)
unfolding open_hold
open_hold-Opened env id now wallet owner cost input c k db {m} {db'} e =
    let h : FulfillmentHold = new_hold id now wallet owner cost input in
    let tail = report_hold env id wallet cost input c k in
    let (a, db₁, spent, rest) =
      >>=-eq-ok (persist_access_nonce env (ticket_nonce wallet input) true)
        (λ _. place_hold wallet cost h >>= tail) db e in
    let (u, db₂, placed, last) = >>=-eq-ok (place_hold wallet cost h) tail db₁ rest in
    let v = report_hold-value env id wallet cost input c k u db₂ last in
    (
      Places-Opened id now wallet owner cost input c k
          ((persist_access_nonce-Frames env _ true).same db a db₁ spent)
          (place_hold-Places wallet cost h db₁ placed)
          ((report_hold-Frames env id wallet cost input c k u).same db₂ (created m) db' last) v,
      ap (λ n. n.credits_before) v,
      ap (λ n. n.held_credits_before) v,
    )
