-- ===== src/History/Solvency.antt =====
-- lib/db.ts as a whole: the invariant along a history of calls.
use ghost_protocol.Prelude.{ℕ, zero, suc, ◌≡◌, ◌≤◌, [], Text, find, sum_by, count, arith}
use ghost_protocol.Store.{Db}
use ghost_protocol.Env.{Env}
use ghost_protocol.Credits.{find_balance}
use ghost_protocol.Credits.Balances.{held_of}
use ghost_protocol.Holds.Open.{same_active}
use ghost_protocol.Holds.Ids.{IsDistinct}
use ghost_protocol.Holds.Solvency.{held_sum}
use ghost_protocol.Holds.Solvency.Sweep.{IsSound, IsSound-IsKept}
use ghost_protocol.Holds.Solvency.Balances.{
  update_user_credits-IsSound, add_user_credits-IsSound, consume_user_credits-IsSound,
}
use ghost_protocol.Holds.Solvency.Gate.{consume_user_credits_for_gate-IsSound}
use ghost_protocol.Holds.Solvency.Sync.{sync_deposits-IsSound}
use ghost_protocol.Holds.Solvency.Create.{create_fulfillment_hold-IsKept}
use ghost_protocol.Holds.Solvency.CaptureCall.{capture_fulfillment_hold-IsKept}
use ghost_protocol.Holds.Solvency.Expire.{expire_fulfillment_holds-IsSound}
use ghost_protocol.History.{
  Call, Calls, set_credits, add_credits, consume, consume_for_gate, sync, create_hold, capture_hold,
  expire_holds, no_calls, call_then, run, run_all, Rounds, no_rounds, round_then, before_round,
}

mutual
  unfolding run run_all before_round

  run-IsSound : (env : Env) (c : Call) (db : Db) → IsSound db → IsSound (run env c db)
  run-IsSound env (set_credits user amount) db s = update_user_credits-IsSound env user amount db s
  run-IsSound env (add_credits user amount) db s = add_user_credits-IsSound env user amount db s
  run-IsSound env (consume others user cost options) db s =
      consume_user_credits-IsSound env (run_all env others) user cost options db s
        (run_all-IsSound env others db s)
  run-IsSound env (consume_for_gate others id now user cost options) db s =
      consume_user_credits_for_gate-IsSound env (run_all env others) id now user cost options db s
        (run_all-IsSound env others db s)
  run-IsSound env (sync others user wei price block options) db s =
      sync_deposits-IsSound env (run_all env others) user wei price block options db s
        (run_all-IsSound env others db s)
  run-IsSound env (create_hold id now input) db s =
      (create_fulfillment_hold-IsKept env id now input db (IsSound-IsKept db s)).sound
  run-IsSound env (capture_hold id now input) db s =
      (capture_fulfillment_hold-IsKept env id now input db (IsSound-IsKept db s)).sound
  run-IsSound env (expire_holds rounds now limit) db s =
      expire_fulfillment_holds-IsSound env (before_round env rounds) now limit db
        (before_round-IsSound env rounds) s

  run_all-IsSound : (env : Env) (cs : Calls) (db : Db) → IsSound db → IsSound (run_all env cs db)
  run_all-IsSound env no_calls db s = s
  run_all-IsSound env (call_then c cs) db s =
      run_all-IsSound env cs (run env c db) (run-IsSound env c db s)

  before_round-IsSound :
      (env : Env) (rs : Rounds) (n : ℕ) (db : Db) → IsSound db → IsSound (before_round env rs n db)
  before_round-IsSound env no_rounds n db s = s
  before_round-IsSound env (round_then cs rs) zero db s = run_all-IsSound env cs db s
  before_round-IsSound env (round_then cs rs) (suc n) db s = before_round-IsSound env rs n db s

-- Whatever calls are made, in any order and overlap, from a database with no balances and no holds:
-- each wallet's held credits are at the end exactly what its HELD holds cost, no two holds share an
-- id, and a wallet has at most one HELD hold at a service.
pub history-IsSound :
    (env : Env) (cs : Calls) (db : Db)
    → db.balances ≡ []
    → db.holds ≡ []
    → ((w : Text)
        → held_of (find_balance w (run_all env cs db)) ≡ held_sum w (run_all env cs db).holds)
      × IsDistinct (run_all env cs db).holds
      × ((w service : Text) → count (same_active w service) (run_all env cs db).holds ≤ 1)
unfolding find sum_by count
history-IsSound env cs db no_balances no_holds =
    let s = run_all-IsSound env cs db (record {
      solvent = λ w. rw (no_balances, no_holds, find, sum_by);
      distinct = rw no_holds tt;
      single = λ w s. rw (no_holds, count) (ground arith);
    }) in
    (s.solvent, s.distinct, s.single)
