-- ===== src/Holds/Expire/Counts.antt =====
-- lib/db.ts, expireFulfillmentHolds: the counters of its report.
use mathlib.Core.Path.{subst}
use ghost_protocol.Prelude.{
  sym, ap, ◌∙◌, select, ℕ, suc, ◌+◌, ◌≤◌, ◌≡◌, refl, inl, inr, List, [], ◌∷◌, length, take, Bool,
  true, false, count, length-take, arith,
}
use ghost_protocol.Prelude.Sorting.{sort_by}
use ghost_protocol.Store.{FulfillmentHold, Db, Result, ok, err, Result-cases}
use ghost_protocol.Env.{Env}
use ghost_protocol.Holds.{expires_before}
use ghost_protocol.Holds.Expire.{
  FulfillmentExpireSweepItemResult, FulfillmentExpireSweepResult, expired_item, skipped_terminal,
  skipped_not_due, is_candidate, no_results, tally, sweep, list_expired_fulfillment_hold_candidates,
  expire_fulfillment_hold_by_id, expire_fulfillment_holds,
}

abbrev pub is_released : FulfillmentExpireSweepItemResult → Bool
is_released (expired_item e) = true
is_released item = false

abbrev pub is_skipped_terminal : FulfillmentExpireSweepItemResult → Bool
is_skipped_terminal (skipped_terminal id s) = true
is_skipped_terminal item = false

abbrev pub is_skipped_not_due : FulfillmentExpireSweepItemResult → Bool
is_skipped_not_due (skipped_not_due id at) = true
is_skipped_not_due item = false

-- The report after `n` rounds: each counter is the number of results of its kind.
pub record Counted (n : ℕ) (r : FulfillmentExpireSweepResult) : Type 0 where
  pub released : r.released_count ≡ count is_released r.results
  pub terminal : r.skipped_terminal_count ≡ count is_skipped_terminal r.results
  pub not_due : r.skipped_not_due_count ≡ count is_skipped_not_due r.results
  pub listed : r.processed ≡ length r.results
  pub rounds : r.processed + r.errors ≡ n

tally-Counted :
    (n : ℕ) (r : FulfillmentExpireSweepResult) (item : Result FulfillmentExpireSweepItemResult)
    → Counted n r
    → Counted (suc n) (tally r item)
unfolding tally count
tally-Counted n r (ok (expired_item e)) x = record {
  released = ground arith;
  terminal = ground arith;
  not_due = ground arith;
  listed = ground arith;
  rounds = ground arith;
}
tally-Counted n r (ok (skipped_terminal id s)) x = record {
  released = ground arith;
  terminal = ground arith;
  not_due = ground arith;
  listed = ground arith;
  rounds = ground arith;
}
tally-Counted n r (ok (skipped_not_due id at)) x = record {
  released = ground arith;
  terminal = ground arith;
  not_due = ground arith;
  listed = ground arith;
  rounds = ground arith;
}
tally-Counted n r (err e) x = record {
  released = ground arith;
  terminal = ground arith;
  not_due = ground arith;
  listed = ground arith;
  rounds = ground arith;
}

no_results-Counted : (selected : ℕ) → Counted 0 (no_results selected)
unfolding count
no_results-Counted selected = record {
  released = refl;
  terminal = refl;
  not_due = refl;
  listed = refl;
  rounds = refl;
}

tally-selected :
    (r : FulfillmentExpireSweepResult) (item : Result FulfillmentExpireSweepItemResult)
    → (tally r item).selected ≡ r.selected
unfolding tally
tally-selected r (ok (expired_item e)) = refl
tally-selected r (ok (skipped_terminal id s)) = refl
tally-selected r (ok (skipped_not_due id at)) = refl
tally-selected r (err e) = refl

list_expired-length :
    (now limit : ℕ) (db : Db) (hs : List FulfillmentHold)
    → list_expired_fulfillment_hold_candidates now limit db ≡ ok hs
    → length hs ≤ limit
unfolding list_expired_fulfillment_hold_candidates
list_expired-length now limit db hs e =
    let all = sort_by expires_before (select (is_candidate now) db.holds) in
    let made : take limit all ≡ hs = ground arith in
    let short : length (take limit all) ≤ limit = ground (arith, length-take limit all) in
    rw made at short

sweep-Counted :
    (env : Env) (others : ℕ → Db → Db) (now : ℕ) (hs : List FulfillmentHold) (n k : ℕ)
    (r : FulfillmentExpireSweepResult) (db : Db)
    → Counted n r
    → k ≡ length hs + n
    → Counted k (sweep env others now hs r db).0
      × ((sweep env others now hs r db).0.selected ≡ r.selected)
unfolding sweep
sweep-Counted env others now [] n k r db x e = (subst (λ j. Counted j r) (ground arith) x, refl)
sweep-Counted env others now (h ∷ hs) n k r db x e =
    let (item, db') = expire_fulfillment_hold_by_id env h.id now (others 0 db) in
    let (y, same) =
      sweep-Counted env (λ n. others (suc n)) now hs (suc n) k (tally r item) db'
        (tally-Counted n r item x) (ground arith) in
    (y, same ∙ tally-selected r item)

-- The report of an expiry sweep that answered, whatever other requests committed between its list and
-- each hold's transaction: it selected at most `limit` holds, each of them gave a result or an error,
-- and the counters of released, terminal and not yet due holds are the numbers of results of these
-- kinds.
pub expire_fulfillment_holds-Counted :
    (env : Env) (others : ℕ → Db → Db) (now limit : ℕ) (db : Db) {r : FulfillmentExpireSweepResult}
    {db' : Db}
    → expire_fulfillment_holds env others now limit db ≡ (ok r, db')
    → Counted r.selected r × (r.selected ≤ limit)
unfolding expire_fulfillment_holds
expire_fulfillment_holds-Counted env others now limit db {r} {db'} e =
    elim (Result-cases (list_expired_fulfillment_hold_candidates now limit db)) [
      | inl (bad, refused) ↦ absurd (ground arith)
      | inr (hs, listed) ↦
          let (x, same) =
            sweep-Counted env others now hs 0 (length hs) (no_results (length hs)) db
              (no_results-Counted (length hs)) (ground arith) in
          let made : (sweep env others now hs (no_results (length hs)) db).0 ≡ r = ground arith in
          let size : length hs ≡ r.selected = sym same ∙ ap (λ y. y.selected) made in
          (
            subst (λ n. Counted n r) size (subst (Counted (length hs)) made x),
            rw size at (list_expired-length now limit db hs listed),
          )
    ]
