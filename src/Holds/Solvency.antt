-- ===== src/Holds/Solvency.antt =====
-- The invariant of the tables CreditBalance and FulfillmentHold, and the sums it is made of.
pub mod Steps
pub mod Sweep
pub mod Capture
pub mod CaptureCall
pub mod Place
pub mod Create
pub mod Expire
pub mod Balances
pub mod Gate
pub mod Sync
use mathlib.Core.Option
use ghost_protocol.Prelude.{
  ℕ, ◌+◌, ◌-◌, ◌≤◌, ◌≡◌, refl, Bool, true, false, ◌&&◌, Option, none, some, List, [], ◌∷◌, Text,
  text_eq, text_eq_iff, text_eq_refl, if◌then◌else◌, find, update, sum_by, sum_by-update, find-test,
  find-update_self, find-update_ne, arith, leb, Bool-cases,
}
use ghost_protocol.Store.{
  CreditBalance, FulfillmentHold, HoldState, held, captured, released, expired, Db,
}
use ghost_protocol.Credits.{find_balance, wallet_is, update_balance}
use ghost_protocol.Credits.Balances.{credits_of, held_of}
use ghost_protocol.Credits.Frame.{SameMoney}
use ghost_protocol.Holds.{is_held, hold_id_is, update_hold, mark_expired, give_back}

-- A hold's share of what the wallet has held.
abbrev pub held_weight : Text → FulfillmentHold → ℕ
held_weight w h = if text_eq h.wallet_address w && is_held h.state then h.cost else 0

abbrev pub held_sum : Text → List FulfillmentHold → ℕ
held_sum w holds = sum_by (held_weight w) holds

-- What a hold has cost its wallet: the cost of one that is held or captured.
abbrev pub is_charged : HoldState → Bool
is_charged held = true
is_charged captured = true
is_charged released = false
is_charged expired = false

abbrev pub charged_weight : Text → FulfillmentHold → ℕ
charged_weight w h = if text_eq h.wallet_address w && is_charged h.state then h.cost else 0

-- A wallet's credits and all that its holds have cost it.
abbrev pub total_of : Text → Db → ℕ
total_of w db = credits_of (find_balance w db) + sum_by (charged_weight w) db.holds

abbrev pub IsSolvent : Db → Type 0
IsSolvent db = (w : Text) → held_of (find_balance w db) ≡ held_sum w db.holds

-- A balance read after the update of one wallet's row.
pub find_balance-update :
    (w k : Text) (f : CreditBalance → CreditBalance) (bs : List CreditBalance)
    → ((b : CreditBalance) → (f b).wallet_address ≡ b.wallet_address)
    → find (wallet_is w) (update (wallet_is k) f bs)
      ≡ (if text_eq k w then Option.map f (find (wallet_is w) bs) else find (wallet_is w) bs)
unfolding find update
find_balance-update w k f [] keep = ground arith
find_balance-update w k f (b ∷ bs) keep = ground (
  arith,
  keep b,
  text_eq_iff b.wallet_address w,
  text_eq_iff b.wallet_address k,
  text_eq_iff k w,
  find_balance-update w k f bs keep,
)

-- A hold's cost is part of its wallet's sum.
pub cost-le-held_sum :
    (p : FulfillmentHold → Bool) (holds : List FulfillmentHold) {h : FulfillmentHold}
    → find p holds ≡ some h
    → is_held h.state ≡ true
    → h.cost ≤ held_sum h.wallet_address holds
unfolding find sum_by
cost-le-held_sum p [] e live = cc
cost-le-held_sum p (k ∷ ks) {h} e live =
    ground (arith, text_eq_refl h.wallet_address, cost-le-held_sum p ks {h = h})

pub SameMoney-IsSolvent : {db db' : Db} → SameMoney db db' → IsSolvent db → IsSolvent db'
SameMoney-IsSolvent {db} {db'} same sol w = rw (same.balances, same.holds) (sol w)

-- A HELD row leaves its state, and its wallet's balance gives up the cost.
pub close-IsSolvent :
    (db db' : Db) (h : FulfillmentHold) (b : CreditBalance) (g : FulfillmentHold → FulfillmentHold)
    (f : CreditBalance → CreditBalance)
    → IsSolvent db
    → find (hold_id_is h.id) db.holds ≡ some h
    → is_held h.state ≡ true
    → find_balance h.wallet_address db ≡ some b
    → is_held (g h).state ≡ false
    → ((c : CreditBalance) → (f c).wallet_address ≡ c.wallet_address)
    → (f b).held_credits + h.cost ≡ b.held_credits
    → db'.holds ≡ update (hold_id_is h.id) g db.holds
    → db'.balances ≡ update (wallet_is h.wallet_address) f db.balances
    → IsSolvent db'
close-IsSolvent db db' h b g f sol found live funded closed keep spent hs bs w =
    rw (hs, bs, find_balance-update w h.wallet_address f db.balances keep)
      (ground (
        arith,
        sol w,
        text_eq_iff h.wallet_address w,
        sum_by-update (hold_id_is h.id) g (held_weight w) db.holds {a = h},
      ))

-- One hold's row and its wallet's balance change, and the credits make up for the charge.
pub close-total_of :
    (db db' : Db) (h : FulfillmentHold) (b : CreditBalance) (g : FulfillmentHold → FulfillmentHold)
    (f : CreditBalance → CreditBalance)
    → find (hold_id_is h.id) db.holds ≡ some h
    → find_balance h.wallet_address db ≡ some b
    → (g h).wallet_address ≡ h.wallet_address
    → ((c : CreditBalance) → (f c).wallet_address ≡ c.wallet_address)
    → (f b).credits + charged_weight h.wallet_address (g h)
      ≡ b.credits + charged_weight h.wallet_address h
    → db'.holds ≡ update (hold_id_is h.id) g db.holds
    → db'.balances ≡ update (wallet_is h.wallet_address) f db.balances
    → (w : Text) → total_of w db' ≡ total_of w db
close-total_of db db' h b g f found funded same keep even hs bs w =
    rw (hs, bs, find_balance-update w h.wallet_address f db.balances keep)
      (ground (
        arith,
        text_eq_iff h.wallet_address w,
        text_eq_refl h.wallet_address,
        sum_by-update (hold_id_is h.id) g (charged_weight w) db.holds {a = h},
      ))
