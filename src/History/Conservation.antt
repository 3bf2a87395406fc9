-- ===== src/History/Conservation.antt =====
-- lib/db.ts as a whole: a wallet's total along a history of ticket calls.
use ghost_protocol.Prelude.{ℕ, zero, suc, ◌≡◌, refl, Bool, true, false, ◌&&◌, Text}
use ghost_protocol.Store.{Db}
use ghost_protocol.Env.{Env}
use ghost_protocol.Holds.Solvency.{total_of}
use ghost_protocol.Holds.Solvency.Sweep.{IsSound, IsKept, IsSound-IsKept}
use ghost_protocol.Holds.Solvency.Create.{create_fulfillment_hold-IsKept}
use ghost_protocol.Holds.Solvency.CaptureCall.{capture_fulfillment_hold-IsKept}
use ghost_protocol.Holds.Solvency.Expire.{expire_fulfillment_holds-IsKept}
use ghost_protocol.History.{
  Call, Calls, set_credits, add_credits, consume, consume_for_gate, sync, create_hold, capture_hold,
  expire_holds, no_calls, call_then, run, run_all, Rounds, no_rounds, round_then, before_round,
}

&&-both : {a b : Bool} → (a && b) ≡ true → (a ≡ true) × (b ≡ true)
&&-both {a = true} e = (refl, e)
&&-both {a = false} e = cc

unfoldable mutual
  pub is_fulfillment : Call → Bool
  is_fulfillment (create_hold id now input) = true
  is_fulfillment (capture_hold id now input) = true
  is_fulfillment (expire_holds rounds now limit) = all_rounds_fulfillment rounds
  is_fulfillment _ = false

  pub all_fulfillment : Calls → Bool
  all_fulfillment no_calls = true
  all_fulfillment (call_then c cs) = is_fulfillment c && all_fulfillment cs

  pub all_rounds_fulfillment : Rounds → Bool
  all_rounds_fulfillment no_rounds = true
  all_rounds_fulfillment (round_then cs rs) = all_fulfillment cs && all_rounds_fulfillment rs

mutual
  unfolding run run_all before_round is_fulfillment all_fulfillment all_rounds_fulfillment

  run-IsKept :
      {total : Text → ℕ} (env : Env) (c : Call) (db : Db)
      → is_fulfillment c ≡ true
      → IsKept total db
      → IsKept total (run env c db)
  run-IsKept env (create_hold id now input) db only s =
      create_fulfillment_hold-IsKept env id now input db s
  run-IsKept env (capture_hold id now input) db only s =
      capture_fulfillment_hold-IsKept env id now input db s
  run-IsKept env (expire_holds rounds now limit) db only s =
      expire_fulfillment_holds-IsKept env (before_round env rounds) now limit db
        (λ n db. before_round-IsKept env rounds n db only) s
  run-IsKept env (set_credits user amount) db only s = cc
  run-IsKept env (add_credits user amount) db only s = cc
  run-IsKept env (consume others user cost options) db only s = cc
  run-IsKept env (consume_for_gate others id now user cost options) db only s = cc
  run-IsKept env (sync others user wei price block options) db only s = cc

  run_all-IsKept :
      {total : Text → ℕ} (env : Env) (cs : Calls) (db : Db)
      → all_fulfillment cs ≡ true
      → IsKept total db
      → IsKept total (run_all env cs db)
  run_all-IsKept env no_calls db only s = s
  run_all-IsKept env (call_then c cs) db only s =
      let (first, rest) = &&-both only in
      run_all-IsKept env cs (run env c db) rest (run-IsKept env c db first s)

  before_round-IsKept :
      {total : Text → ℕ} (env : Env) (rs : Rounds) (n : ℕ) (db : Db)
      → all_rounds_fulfillment rs ≡ true
      → IsKept total db
      → IsKept total (before_round env rs n db)
  before_round-IsKept env no_rounds n db only s = s
  before_round-IsKept env (round_then cs rs) zero db only s =
      run_all-IsKept env cs db (&&-both only).0 s
  before_round-IsKept env (round_then cs rs) (suc n) db only s =
      before_round-IsKept env rs n db (&&-both only).1 s

-- From a sound database, calls that issue, capture and expire tickets, in any order and with any
-- outcome, keep for every wallet the sum of its credits and the costs of its held and captured holds.
pub fulfillment-total_of :
    (env : Env) (cs : Calls) (db : Db)
    → IsSound db
    → all_fulfillment cs ≡ true
    → (w : Text) → total_of w (run_all env cs db) ≡ total_of w db
fulfillment-total_of env cs db s only =
    (run_all-IsKept env cs db only (IsSound-IsKept db s)).balanced
