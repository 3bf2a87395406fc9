-- ===== src/Holds/Solvency/Expire.antt =====
-- lib/db.ts, expireFulfillmentHolds, for the invariant: one hold, and the loop.
use mathlib.Core.Path.{subst}
use ghost_protocol.Prelude.{
  ℕ, suc, ◌≡◌, inl, inr, List, [], ◌∷◌, Text, find, ltb, arith, Bool-cases, Option-cases,
}
use ghost_protocol.Store.{
  CreditBalance, FulfillmentHold, Db, Result, ok, return, >>=-eq-ok, ok-db, transaction-keeps,
  on_ok-keeps,
}
use ghost_protocol.Env.{Env}
use ghost_protocol.Credits.{find_balance}
use ghost_protocol.Holds.{is_held, hold_id_is, expire_row}
use ghost_protocol.Holds.Expire.{
  FulfillmentExpireSweepItemResult, FulfillmentExpireSweepResult, expiry_of, expire_locked,
  expire_found, expire_body, expire_fulfillment_hold_by_id, tally, sweep, expire_fulfillment_holds,
  list_expired_fulfillment_hold_candidates,
}
use ghost_protocol.Holds.Ids.{IsStored, find-IsStored}
use ghost_protocol.Holds.Solvency.Steps.{expire_row-Expires}
use ghost_protocol.Holds.Solvency.Sweep.{
  IsSound, IsSound-IsKept, IsKept, LeavesKept, IsDue, Expires-IsKept,
}

expire_locked-IsKept :
    {total : Text → ℕ} (env : Env) (now : ℕ) (h : FulfillmentHold) (b : CreditBalance) (db : Db)
    {r : FulfillmentExpireSweepItemResult} {db' : Db}
    → IsKept total db
    → IsDue db h
    → expire_locked env now h b db ≡ ok (r, db')
    → IsKept total db'
unfolding expire_locked
expire_locked-IsKept {total} env now h b db s due e =
    let (u, db₁, first, last) =
      >>=-eq-ok (expire_row env now h b.credits b.held_credits) (λ u. return (expiry_of h b u)) db
        e in
    subst (IsKept total) (ok-db last) (
      Expires-IsKept now h db s due
        (expire_row-Expires env now h b.credits b.held_credits db first))

expire_found-IsKept :
    {total : Text → ℕ} (env : Env) (now : ℕ) (h : FulfillmentHold) (db : Db)
    {r : FulfillmentExpireSweepItemResult} {db' : Db}
    → IsKept total db
    → IsStored db.holds h
    → expire_found env now h db ≡ ok (r, db')
    → IsKept total db'
unfolding expire_found
expire_found-IsKept {total} env now h db {r} {db'} s stored e =
    elim (Bool-cases (is_held h.state)) [
      | inr over ↦ let same : db ≡ db' = ground arith in subst (IsKept total) same s
      | inl live ↦ elim (Bool-cases (ltb now h.expires_at)) [
        | inl early ↦ let same : db ≡ db' = ground arith in subst (IsKept total) same s
        | inr due ↦ elim (Option-cases (find_balance h.wallet_address db)) [
          | inl missing ↦ absurd (ground arith)
          | inr (b, funded) ↦
              expire_locked-IsKept env now h b db {r = r} {db' = db'} s (stored, live)
                (ground arith)
        ]
      ]
    ]

expire_body-IsKept :
    {total : Text → ℕ} (env : Env) (id : Text) (now : ℕ) (db : Db)
    {r : FulfillmentExpireSweepItemResult} {db' : Db}
    → IsKept total db
    → expire_body env id now db ≡ ok (r, db')
    → IsKept total db'
unfolding expire_body
expire_body-IsKept {total} env id now db s e = elim (Option-cases (find (hold_id_is id) db.holds)) [
  | inl missing ↦ absurd (ground arith)
  | inr (h, found) ↦
      expire_found-IsKept env now h db s
        (find-IsStored (hold_id_is id) db.holds s.sound.distinct found)
        (rw (found, expire_body) at e)
]

pub expire_fulfillment_hold_by_id-IsKept :
    {total : Text → ℕ} (env : Env) (id : Text) (now : ℕ) (db : Db)
    → IsKept total db
    → LeavesKept total (expire_fulfillment_hold_by_id env id now db)
unfolding expire_fulfillment_hold_by_id
expire_fulfillment_hold_by_id-IsKept {total} env id now db s =
    transaction-keeps (IsKept total) (expire_body env id now) db s
      (λ r db' done. expire_body-IsKept env id now db s done)

-- What each transaction keeps, and others keep in between, the sweep keeps.
sweep-keeps {ℓ} :
    (P : Db → Type ℓ) (env : Env) (others : ℕ → Db → Db) (now : ℕ) (hs : List FulfillmentHold)
    (r : FulfillmentExpireSweepResult) (db : Db)
    → ((n : ℕ) (db : Db) → P db → P (others n db))
    → ((id : Text) (db : Db) → P db → P (expire_fulfillment_hold_by_id env id now db).1)
    → P db
    → P (sweep env others now hs r db).1
unfolding sweep
sweep-keeps P env others now [] r db between each p = p
sweep-keeps P env others now (h ∷ hs) r db between each p =
    let (item, db') = expire_fulfillment_hold_by_id env h.id now (others 0 db) in
    sweep-keeps P env (λ n. others (suc n)) now hs (tally r item) db' (λ n. between (suc n)) each
      (each h.id (others 0 db) (between 0 db p))

expire_fulfillment_holds-keeps {ℓ} :
    (P : Db → Type ℓ) (env : Env) (others : ℕ → Db → Db) (now limit : ℕ) (db : Db)
    → ((n : ℕ) (db : Db) → P db → P (others n db))
    → ((id : Text) (db : Db) → P db → P (expire_fulfillment_hold_by_id env id now db).1)
    → P db
    → P (expire_fulfillment_holds env others now limit db).1
unfolding expire_fulfillment_holds
expire_fulfillment_holds-keeps P env others now limit db between each p =
    on_ok-keeps (λ (x : Result FulfillmentExpireSweepResult × Db). P x.1)
      (list_expired_fulfillment_hold_candidates now limit db) db _ (λ _. p)
      λ candidates. sweep-keeps P env others now candidates _ db between each p

pub expire_fulfillment_holds-IsKept :
    {total : Text → ℕ} (env : Env) (others : ℕ → Db → Db) (now limit : ℕ) (db : Db)
    → ((n : ℕ) (db : Db) → IsKept total db → IsKept total (others n db))
    → IsKept total db
    → IsKept total (expire_fulfillment_holds env others now limit db).1
expire_fulfillment_holds-IsKept {total} env others now limit db between s =
    expire_fulfillment_holds-keeps (IsKept total) env others now limit db between
      (λ id db s. expire_fulfillment_hold_by_id-IsKept env id now db s) s

pub expire_fulfillment_holds-IsSound :
    (env : Env) (others : ℕ → Db → Db) (now limit : ℕ) (db : Db)
    → ((n : ℕ) (db : Db) → IsSound db → IsSound (others n db))
    → IsSound db
    → IsSound (expire_fulfillment_holds env others now limit db).1
expire_fulfillment_holds-IsSound env others now limit db between s =
    expire_fulfillment_holds-keeps IsSound env others now limit db between
      (λ id db s. (expire_fulfillment_hold_by_id-IsKept env id now db (IsSound-IsKept db s)).sound)
      s
