-- ===== src/Holds/Solvency/Sweep.antt =====
-- lib/db.ts, expireOverdueHeldFulfillmentHoldsForWallet, for the invariant: its loop over rows that
-- are still to be expired.
use ghost_protocol.Prelude.{
  ◌≤◌, false, update, count, count-update, some, text_eq_iff, some-eq, sym, ap, find-update_self,
  All-map, ◌∙◌, ℕ, ◌≡◌, refl, true, List, [], ◌∷◌, Text, All, All-zip, select-test, arith,
}
use mathlib.Core.Path.{subst}
use ghost_protocol.Prelude.Sorting.{All-sort_by}
use ghost_protocol.Store.{
  CreditBalance, FulfillmentHold, Db, Result, ok, >>=-eq-ok, ok-db, ok-value,
}
use ghost_protocol.Env.{Env}
use ghost_protocol.Credits.{find_balance, wallet_is}
use ghost_protocol.Holds.{
  is_held, hold_id_is, mark_expired, give_back, expires_before, is_overdue, expire_row,
  overdue_holds, expire_rows, expire_overdue_held_fulfillment_holds_for_wallet,
}
use ghost_protocol.Holds.Open.{same_active}
use ghost_protocol.Holds.Ids.{
  Apart, IsDistinct, IsStored, select-IsStored, select-IsDistinct, sort_by-IsDistinct,
  update-IsDistinct, IsStored-update,
}
use ghost_protocol.Holds.Solvency.{IsSolvent, total_of}
use ghost_protocol.Holds.Solvency.Steps.{
  Expires, expire_row-Expires, Expires-IsSolvent, Expires-total_of,
}

-- At most one hold of a wallet at a service is HELD.
abbrev pub IsSingle : List FulfillmentHold → Type 0
IsSingle holds = (w s : Text) → count (same_active w s) holds ≤ 1

-- A row that leaves HELD.
pub update-IsSingle :
    (id : Text) (f : FulfillmentHold → FulfillmentHold) (holds : List FulfillmentHold)
    → ((h : FulfillmentHold) → is_held (f h).state ≡ false)
    → IsSingle holds
    → IsSingle (update (hold_id_is id) f holds)
update-IsSingle id f holds out single w s = ground (
  arith,
  single w s,
  count-update (hold_id_is id) f (same_active w s) holds (λ h _. let over = out h in ground arith),
)

pub record IsSound (db : Db) : Type 0 where
  pub solvent : IsSolvent db
  pub distinct : IsDistinct db.holds
  pub single : IsSingle db.holds

-- A sound database in which each wallet's credits and charges add up to what it had in all.
pub record IsKept (total : Text → ℕ) (db : Db) : Type 0 where
  pub sound : IsSound db
  pub balanced : (w : Text) → total_of w db ≡ total w

pub IsSound-IsKept : (db : Db) → IsSound db → IsKept (λ w. total_of w db) db
IsSound-IsKept db s = record { sound = s; balanced = λ w. refl }

-- What a call leaves behind.
abbrev pub LeavesSound : {A : Type 0} → Result A × Db → Type 0
LeavesSound r = IsSound r.1

abbrev pub LeavesKept : (Text → ℕ) → {A : Type 0} → Result A × Db → Type 0
LeavesKept total r = IsKept total r.1

-- A row that the loop has still to expire.
abbrev pub IsDue : Db → FulfillmentHold → Type 0
IsDue db h = IsStored db.holds h × (is_held h.state ≡ true)

pub Expires-IsKept :
    {total : Text → ℕ} (now : ℕ) (h : FulfillmentHold) (db : Db) {u : CreditBalance} {db' : Db}
    → IsKept total db
    → IsDue db h
    → Expires now h db u db'
    → IsKept total db'
Expires-IsKept {total} now h db s (stored, live) x = record {
  sound = record {
    solvent = Expires-IsSolvent now h db s.sound.solvent stored live x;
    distinct =
        rw x.holds (update-IsDistinct _ (mark_expired now) db.holds (λ k. refl) s.sound.distinct);
    single =
        rw x.holds (update-IsSingle h.id (mark_expired now) db.holds (λ k. refl) s.sound.single);
  };
  balanced = λ w. Expires-total_of now h db stored live x w ∙ s.balanced w;
}

Expires-IsDue :
    (now : ℕ) (h : FulfillmentHold) (db : Db) {u : CreditBalance} {db' : Db}
    (hs : List FulfillmentHold)
    → Expires now h db u db'
    → All (Apart h) hs
    → All (IsDue db) hs
    → All (IsDue db') hs
Expires-IsDue now h db {db' = db'} hs x =
    All-zip (Apart h) (IsDue db) (IsDue db') hs (λ k apart due.
      (rw x.holds (IsStored-update h k (mark_expired now) db.holds (λ _. refl) apart due.0), due.1))

pub expire_rows-IsKept :
    {total : Text → ℕ} (env : Env) (now : ℕ) (hs : List FulfillmentHold) (c k : ℕ) (db : Db)
    {r : ℕ × ℕ} {db' : Db}
    → IsKept total db
    → IsDistinct hs
    → All (IsDue db) hs
    → expire_rows env now hs c k db ≡ ok (r, db')
    → IsKept total db'
unfolding expire_rows
expire_rows-IsKept {total} env now [] c k db {db' = db'} s apart due e =
    subst (IsKept total) (ok-db e) s
expire_rows-IsKept {total} env now (h ∷ hs) c k db s (apart, d) (due, dues) e =
    let (u, db₁, first, rest) = >>=-eq-ok (expire_row env now h c k) _ db e in
    let x = expire_row-Expires env now h c k db first in
    expire_rows-IsKept env now hs u.credits u.held_credits db₁ (Expires-IsKept now h db s due x) d
      (Expires-IsDue now h db hs x apart dues) rest

overdue_holds-IsDue :
    (wallet : Text) (now : ℕ) (db : Db)
    → IsDistinct db.holds
    → All (IsDue db) (overdue_holds wallet now db)
unfolding overdue_holds
overdue_holds-IsDue wallet now db d = All-sort_by expires_before (IsDue db) _ (
    All-zip (IsStored db.holds) (λ h. is_overdue wallet now h ≡ true) (IsDue db) _
      (λ h stored due. (stored, ground arith)) (select-IsStored (is_overdue wallet now) db.holds d)
      (select-test (is_overdue wallet now) db.holds))

overdue_holds-IsDistinct :
    (wallet : Text) (now : ℕ) (db : Db)
    → IsDistinct db.holds
    → IsDistinct (overdue_holds wallet now db)
unfolding overdue_holds
overdue_holds-IsDistinct wallet now db d =
    sort_by-IsDistinct expires_before _ (select-IsDistinct (is_overdue wallet now) db.holds d)

pub expire_overdue-IsKept :
    {total : Text → ℕ} (env : Env) (wallet : Text) (now c k : ℕ) (db : Db) {r : ℕ × ℕ} {db' : Db}
    → IsKept total db
    → expire_overdue_held_fulfillment_holds_for_wallet env wallet now c k db ≡ ok (r, db')
    → IsKept total db'
unfolding expire_overdue_held_fulfillment_holds_for_wallet
expire_overdue-IsKept {total} env wallet now c k db s =
    expire_rows-IsKept env now (overdue_holds wallet now db) c k db s
      (overdue_holds-IsDistinct wallet now db s.sound.distinct)
      (overdue_holds-IsDue wallet now db s.sound.distinct)

-- The credits and the held credits that a caller carries are those of the wallet's row.
abbrev pub Reads : Text → ℕ → ℕ → Db → Type 0
Reads wallet c k db =
    (b : CreditBalance) → find_balance wallet db ≡ some b → (b.credits ≡ c) × (b.held_credits ≡ k)

pub row-Reads :
    (wallet : Text) (db : Db) {b : CreditBalance}
    → find_balance wallet db ≡ some b
    → Reads wallet b.credits b.held_credits db
row-Reads wallet db there x found =
    let same = some-eq (sym found ∙ there) in
    (ap (λ y. y.credits) same, ap (λ y. y.held_credits) same)

Expires-Reads :
    (now : ℕ) (h : FulfillmentHold) (db : Db) {u : CreditBalance} {db' : Db}
    → Expires now h db u db'
    → Reads h.wallet_address u.credits u.held_credits db'
Expires-Reads now h db {u} x b there =
    let found =
      find-update_self (wallet_is h.wallet_address) (give_back h.cost) db.balances (λ _ e. e)
        x.funded in
    let same : b ≡ give_back h.cost x.row = some-eq (sym (rw x.balances at there) ∙ found) in
    rw same (ap (λ c. c.credits) (sym x.result), ap (λ c. c.held_credits) (sym x.result))

expire_rows-Reads :
    (env : Env) (wallet : Text) (now : ℕ) (hs : List FulfillmentHold) (c k : ℕ) (db : Db)
    {r : ℕ × ℕ} {db' : Db}
    → All (λ h. h.wallet_address ≡ wallet) hs
    → Reads wallet c k db
    → expire_rows env now hs c k db ≡ ok (r, db')
    → Reads wallet r.0 r.1 db'
unfolding expire_rows
expire_rows-Reads env wallet now [] c k db {r} {db'} its reads e =
    let same : db ≡ db' = ok-db e in
    let value : (c, k) ≡ r = ok-value e in rw (sym same, sym value) reads
expire_rows-Reads env wallet now (h ∷ hs) c k db (its, rest_its) reads e =
    let (u, db₁, first, rest) = >>=-eq-ok (expire_row env now h c k) _ db e in
    let x = expire_row-Expires env now h c k db first in
    expire_rows-Reads env wallet now hs u.credits u.held_credits db₁ rest_its
      (subst (λ w. Reads w u.credits u.held_credits db₁) its (Expires-Reads now h db x)) rest

overdue_holds-wallet :
    (wallet : Text) (now : ℕ) (db : Db)
    → All (λ h. h.wallet_address ≡ wallet) (overdue_holds wallet now db)
unfolding overdue_holds
overdue_holds-wallet wallet now db =
    All-sort_by expires_before (λ h. h.wallet_address ≡ wallet) _
      (All-map (λ h. is_overdue wallet now h ≡ true) (λ h. h.wallet_address ≡ wallet) _
        (λ h due. (text_eq_iff h.wallet_address wallet).0 (ground arith))
        (select-test (is_overdue wallet now) db.holds))

pub expire_overdue-Reads :
    (env : Env) (wallet : Text) (now c k : ℕ) (db : Db) {r : ℕ × ℕ} {db' : Db}
    → Reads wallet c k db
    → expire_overdue_held_fulfillment_holds_for_wallet env wallet now c k db ≡ ok (r, db')
    → Reads wallet r.0 r.1 db'
unfolding expire_overdue_held_fulfillment_holds_for_wallet
expire_overdue-Reads env wallet now c k db reads e =
    expire_rows-Reads env wallet now (overdue_holds wallet now db) c k db
      (overdue_holds-wallet wallet now db) reads e
