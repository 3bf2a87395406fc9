-- ===== src/History.antt =====
-- lib/db.ts as a whole: the calls that the routes make, in any order and in any overlap. A call that
-- reads before it locks carries the calls that others finish in between.
pub mod Solvency
pub mod Conservation
use ghost_protocol.Prelude.{ℕ, zero, suc, Text}
use ghost_protocol.Prelude.Int.{ℤ}
use ghost_protocol.Store.{Db}
use ghost_protocol.Env.{Env}
use ghost_protocol.Credits.Balances.{
  ConsumeUserCreditsOptions, update_user_credits, add_user_credits, consume_user_credits,
}
use ghost_protocol.Credits.Gate.{ConsumeGateCreditsOptions, consume_user_credits_for_gate}
use ghost_protocol.Credits.Sync.{SyncDepositsOptions, sync_deposits}
use ghost_protocol.Holds.Create.{create_fulfillment_hold}
use ghost_protocol.Holds.Open.{CreateFulfillmentHoldInput}
use ghost_protocol.Holds.Capture.{capture_fulfillment_hold}
use ghost_protocol.Holds.Settle.{CaptureFulfillmentHoldInput}
use ghost_protocol.Holds.Expire.{expire_fulfillment_holds}

mutual
  pub data Call : Type 0 where
    set_credits : Text → ℤ → Call
    add_credits : Text → ℤ → Call
    consume : Calls → Text → ℤ → ConsumeUserCreditsOptions → Call
    consume_for_gate : Calls → Text → ℕ → Text → ℤ → ConsumeGateCreditsOptions → Call
    sync : Calls → Text → ℤ → ℤ → ℤ → SyncDepositsOptions → Call
    create_hold : Text → ℕ → CreateFulfillmentHoldInput → Call
    capture_hold : Text → ℕ → CaptureFulfillmentHoldInput → Call
    expire_holds : Rounds → ℕ → ℕ → Call

  pub data Calls : Type 0 where
    no_calls : Calls
    call_then : Call → Calls → Calls

  -- What others finish before each transaction of a sweep, and nothing before those after the last.
  pub data Rounds : Type 0 where
    no_rounds : Rounds
    round_then : Calls → Rounds → Rounds

unfoldable mutual
  -- The database after a call, whatever it answered.
  pub run : Env → Call → Db → Db
  run env (set_credits user amount) db = (update_user_credits env user amount db).1
  run env (add_credits user amount) db = (add_user_credits env user amount db).1
  run env (consume others user cost options) db =
      (consume_user_credits env (run_all env others) user cost options db).1
  run env (consume_for_gate others id now user cost options) db =
      (consume_user_credits_for_gate env (run_all env others) id now user cost options db).1
  run env (sync others user wei price block options) db =
      (sync_deposits env (run_all env others) user wei price block options db).1
  run env (create_hold id now input) db = (create_fulfillment_hold env id now input db).1
  run env (capture_hold id now input) db = (capture_fulfillment_hold env id now input db).1
  run env (expire_holds rounds now limit) db =
      (expire_fulfillment_holds env (before_round env rounds) now limit db).1

  pub run_all : Env → Calls → Db → Db
  run_all env no_calls db = db
  run_all env (call_then c cs) db = run_all env cs (run env c db)

  pub before_round : Env → Rounds → ℕ → Db → Db
  before_round env no_rounds n db = db
  before_round env (round_then cs rs) zero db = run_all env cs db
  before_round env (round_then cs rs) (suc n) db = before_round env rs n db
