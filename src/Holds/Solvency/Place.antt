-- ===== src/Holds/Solvency/Place.antt =====
-- lib/db.ts, createFulfillmentHold, for the invariant: the balance and the row of a new hold.
use ghost_protocol.Prelude.{
  count-of_find-none, ℕ, ◌≤◌, ◌≡◌, ◌∙◌, refl, inl, inr, true, none, some, List, ◌∷◌, Text,
  text_eq_iff, text_eq_sym, find, update, sum_by, arith, Option-cases, All-map, All-of_find-none,
  count,
}
use ghost_protocol.Store.{CreditBalance, FulfillmentHold, Db, ok, return, ◌>>◌, >>=-eq-ok}
use ghost_protocol.Credits.{find_balance, wallet_is, update_balance}
use ghost_protocol.Holds.{is_held, hold_id_is}
use ghost_protocol.Holds.Open.{set_aside, same_active, insert_hold, place_hold}
use ghost_protocol.Holds.Ids.{Apart}
use ghost_protocol.Holds.Solvency.{total_of, IsSolvent, find_balance-update}
use ghost_protocol.Holds.Solvency.Sweep.{IsSingle, IsKept}

-- What placing a hold has done.
pub record Places (wallet : Text) (cost : ℕ) (h : FulfillmentHold) (db : Db) (u : CreditBalance)
    (db' : Db) : Type 0 where
  pub row : CreditBalance
  pub funded : find_balance wallet db ≡ some row
  pub result : u ≡ set_aside cost row
  pub vacant : find (same_active h.wallet_address h.service_slug) db.holds ≡ none
  pub fresh : find (hold_id_is h.id) db.holds ≡ none
  pub holds : db'.holds ≡ h ∷ db.holds
  pub balances : db'.balances ≡ update (wallet_is wallet) (set_aside cost) db.balances

update_balance-eq :
    (w : Text) (f : CreditBalance → CreditBalance) (db : Db) {u : CreditBalance} {db' : Db}
    → update_balance w f db ≡ ok (u, db')
    → (b : CreditBalance) × (find_balance w db ≡ some b)
      × (u ≡ f b)
      × (db' ≡ record db { balances = update (wallet_is w) f db.balances })
unfolding update_balance
update_balance-eq w f db e = elim (Option-cases (find_balance w db)) [
  | inl missing ↦ absurd (ground arith)
  | inr (b, funded) ↦ (b, funded, ground arith, ground arith)
]

insert_hold-eq :
    (h : FulfillmentHold) (db : Db) {db' : Db}
    → insert_hold h db ≡ ok (tt, db')
    → (find (hold_id_is h.id) db.holds ≡ none)
      × (find (same_active h.wallet_address h.service_slug) db.holds ≡ none)
      × (db' ≡ record db { holds = h ∷ db.holds })
unfolding insert_hold
insert_hold-eq h db e = elim (Option-cases (find (hold_id_is h.id) db.holds)) [
  | inl fresh ↦ elim (Option-cases (find (same_active h.wallet_address h.service_slug) db.holds)) [
    | inl vacant ↦ (fresh, vacant, ground arith)
    | inr (k, busy) ↦ absurd (ground arith)
  ]
  | inr (k, taken) ↦ absurd (ground arith)
]

pub place_hold-Places :
    (wallet : Text) (cost : ℕ) (h : FulfillmentHold) (db : Db) {u : CreditBalance} {db' : Db}
    → place_hold wallet cost h db ≡ ok (u, db')
    → Places wallet cost h db u db'
unfolding place_hold
place_hold-Places wallet cost h db {u} {db'} e =
    let (v, db₁, moved, k) =
      >>=-eq-ok (update_balance wallet (set_aside cost)) (λ v. insert_hold h >> return v) db e in
    let (_, db₂, stored, last) = >>=-eq-ok (insert_hold h) (λ _. return v) db₁ k in
    let (b, funded, result, after) = update_balance-eq wallet (set_aside cost) db moved in
    let (fresh, vacant, added) = insert_hold-eq h db₁ stored in
    record {
      row = b;
      funded = funded;
      result = ground arith;
      vacant = ground arith;
      fresh = ground arith;
      holds = ground arith;
      balances = ground arith;
    }

Places-IsSolvent :
    (wallet : Text) (cost : ℕ) (h : FulfillmentHold) (db : Db) {u : CreditBalance} {db' : Db}
    → h.wallet_address ≡ wallet
    → h.cost ≡ cost
    → is_held h.state ≡ true
    → IsSolvent db
    → Places wallet cost h db u db'
    → IsSolvent db'
unfolding sum_by
Places-IsSolvent wallet cost h db its priced live sol x w =
    rw (x.holds, x.balances, find_balance-update w wallet (set_aside cost) db.balances (λ b. refl))
      (ground
        (arith, sol w, its, priced, x.funded, text_eq_iff wallet w, text_eq_iff h.wallet_address w))

Places-total_of :
    (wallet : Text) (cost : ℕ) (h : FulfillmentHold) (db : Db) {u : CreditBalance} {db' : Db}
    → h.wallet_address ≡ wallet
    → h.cost ≡ cost
    → is_held h.state ≡ true
    → ((b : CreditBalance) → find_balance wallet db ≡ some b → cost ≤ b.credits)
    → Places wallet cost h db u db'
    → (w : Text) → total_of w db' ≡ total_of w db
unfolding sum_by
Places-total_of wallet cost h db its priced live covered x w =
    rw (x.holds, x.balances, find_balance-update w wallet (set_aside cost) db.balances (λ b. refl))
      (ground (
        arith,
        its,
        priced,
        covered x.row x.funded,
        x.funded,
        text_eq_iff wallet w,
        text_eq_iff h.wallet_address w,
      ))

open-IsSingle :
    (h : FulfillmentHold) (holds : List FulfillmentHold)
    → find (same_active h.wallet_address h.service_slug) holds ≡ none
    → IsSingle holds
    → IsSingle (h ∷ holds)
unfolding count
open-IsSingle h holds vacant single w s = ground (
  arith,
  single w s,
  count-of_find-none (same_active h.wallet_address h.service_slug) holds vacant,
  text_eq_iff h.wallet_address w,
  text_eq_iff h.service_slug s,
)

pub Places-IsKept :
    {total : Text → ℕ} (wallet : Text) (cost : ℕ) (h : FulfillmentHold) (db : Db)
    {u : CreditBalance} {db' : Db}
    → h.wallet_address ≡ wallet
    → h.cost ≡ cost
    → is_held h.state ≡ true
    → ((b : CreditBalance) → find_balance wallet db ≡ some b → cost ≤ b.credits)
    → IsKept total db
    → Places wallet cost h db u db'
    → IsKept total db'
Places-IsKept {total} wallet cost h db its priced live covered s x = record {
  sound = record {
    solvent = Places-IsSolvent wallet cost h db its priced live s.sound.solvent x;
    distinct = rw x.holds (
      All-map _ (Apart h) db.holds (λ k e. text_eq_sym h.id k.id ∙ e)
          (All-of_find-none (hold_id_is h.id) db.holds x.fresh),
      s.sound.distinct,
    );
    single = rw x.holds (open-IsSingle h db.holds x.vacant s.sound.single);
  };
  balanced = λ w. Places-total_of wallet cost h db its priced live covered x w ∙ s.balanced w;
}
