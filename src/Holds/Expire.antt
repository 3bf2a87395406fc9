-- ===== src/Holds/Expire.antt =====
-- lib/db.ts, the expiry sweep: the overdue holds in order of expiry, listed without a lock, each in a
-- transaction of its own.
pub mod Counts
pub mod Refund
use ghost_protocol.Prelude.{
  ℕ, suc, Bool, ◌&&◌, not, none, some, List, [], ◌∷◌, Text, length, take, ltb, leb, ◌==◌,
  if◌then◌else◌, find, select,
}
use ghost_protocol.Prelude.Sorting.{sort_by}
use ghost_protocol.Store.{
  CreditBalance, FulfillmentHold, HoldState, Db, failure, Result, ok, err, M, ◌>>=◌, return,
  transaction, on_ok,
}
use ghost_protocol.Env.{Env}
use ghost_protocol.Credits.{find_balance}
use ghost_protocol.Holds.{is_held, hold_id_is, expires_before, expire_row}

pub record ExpiredHold : Type 0 where
  pub hold_id : Text
  pub cost : ℕ
  pub credits_before : ℕ
  pub credits_after : ℕ
  pub held_credits_before : ℕ
  pub held_credits_after : ℕ

pub data FulfillmentExpireSweepItemResult : Type 0 where
  expired_item : ExpiredHold → FulfillmentExpireSweepItemResult
  skipped_terminal : Text → HoldState → FulfillmentExpireSweepItemResult
  skipped_not_due : Text → ℕ → FulfillmentExpireSweepItemResult

abbrev pub is_candidate : ℕ → FulfillmentHold → Bool
is_candidate now h = is_held h.state && leb h.expires_at now

unfoldable pub list_expired_fulfillment_hold_candidates : ℕ → ℕ → Db → Result (List FulfillmentHold)
list_expired_fulfillment_hold_candidates now limit db =
    if limit == 0
    then err (failure "Fulfillment expire sweep limit must be a positive integer.")
    else ok (take limit (sort_by expires_before (select (is_candidate now) db.holds)))

abbrev pub expiry_of :
    FulfillmentHold → CreditBalance → CreditBalance → FulfillmentExpireSweepItemResult
expiry_of h b updated = expired_item (record {
  hold_id = h.id;
  cost = h.cost;
  credits_before = b.credits;
  credits_after = updated.credits;
  held_credits_before = b.held_credits;
  held_credits_after = updated.held_credits;
})

-- The hold and its wallet's balance are locked.
unfoldable pub expire_locked :
    Env → ℕ → FulfillmentHold → CreditBalance → M FulfillmentExpireSweepItemResult
expire_locked env now h b =
    expire_row env now h b.credits b.held_credits >>= λ updated. return (expiry_of h b updated)

unfoldable pub expire_found : Env → ℕ → FulfillmentHold → M FulfillmentExpireSweepItemResult
unfolding expire_locked
expire_found env now h db =
    if not (is_held h.state)
    then ok (skipped_terminal h.id h.state, db)
    else if ltb now h.expires_at
    then ok (skipped_not_due h.id h.expires_at, db)
    else elim (find_balance h.wallet_address db) [
      | none ↦ err (failure "CreditBalance missing for fulfillment hold wallet")
      | some b ↦ expire_locked env now h b db
    ]

unfoldable pub expire_body : Env → Text → ℕ → M FulfillmentExpireSweepItemResult
unfolding expire_found
expire_body env hold_id now db = elim (find (hold_id_is hold_id) db.holds) [
  | none ↦ err (failure "Fulfillment hold not found during expire sweep")
  | some h ↦ expire_found env now h db
]

unfoldable pub expire_fulfillment_hold_by_id :
    Env → Text → ℕ → Db → Result FulfillmentExpireSweepItemResult × Db
unfolding expire_body
expire_fulfillment_hold_by_id env hold_id now = transaction (expire_body env hold_id now)

pub record FulfillmentExpireSweepResult : Type 0 where
  pub selected : ℕ
  pub processed : ℕ
  pub released_count : ℕ
  pub skipped_terminal_count : ℕ
  pub skipped_not_due_count : ℕ
  pub errors : ℕ
  pub results : List FulfillmentExpireSweepItemResult

abbrev pub no_results : ℕ → FulfillmentExpireSweepResult
no_results selected = record {
  selected = selected;
  processed = 0;
  released_count = 0;
  skipped_terminal_count = 0;
  skipped_not_due_count = 0;
  errors = 0;
  results = [];
}

-- One round of the loop: the outcome of a candidate's transaction. `results` is newest first.
unfoldable pub tally :
    FulfillmentExpireSweepResult
    → Result FulfillmentExpireSweepItemResult
    → FulfillmentExpireSweepResult
tally r (ok (expired_item e)) = record r {
  processed = suc r.processed;
  released_count = suc r.released_count;
  results = expired_item e ∷ r.results;
}
tally r (ok (skipped_terminal id s)) = record r {
  processed = suc r.processed;
  skipped_terminal_count = suc r.skipped_terminal_count;
  results = skipped_terminal id s ∷ r.results;
}
tally r (ok (skipped_not_due id at)) = record r {
  processed = suc r.processed;
  skipped_not_due_count = suc r.skipped_not_due_count;
  results = skipped_not_due id at ∷ r.results;
}
tally r (err e) = record r { errors = suc r.errors }

-- `others n` is what other requests commit before the transaction of the candidate after the first `n`.
unfoldable pub sweep :
    Env
    → (ℕ → Db → Db)
    → ℕ
    → List FulfillmentHold
    → FulfillmentExpireSweepResult
    → Db
    → FulfillmentExpireSweepResult × Db
unfolding tally
sweep env others now [] r db = (r, db)
sweep env others now (h ∷ hs) r db =
    let (item, db') = expire_fulfillment_hold_by_id env h.id now (others 0 db) in
    sweep env (λ n. others (suc n)) now hs (tally r item) db'

unfoldable pub expire_fulfillment_holds :
    Env → (ℕ → Db → Db) → ℕ → ℕ → Db → Result FulfillmentExpireSweepResult × Db
unfolding sweep
expire_fulfillment_holds env others now limit db =
    on_ok (list_expired_fulfillment_hold_candidates now limit db) db λ candidates.
      let (r, db') = sweep env others now candidates (no_results (length candidates)) db in
      (ok r, db')
