-- ===== src/Holds/Create.antt =====
-- lib/db.ts, createFulfillmentHold: sweep the wallet, check its balance and its cap, and set the cost
-- aside.
pub mod Placed
pub mod Ticket
use ghost_protocol.Prelude.{
  ℕ, ◌+◌, ◌-◌, ◌&&◌, ◌||◌, not, Bool, true, false, Option, none, some, ◌∷◌, ◌++◌, Text, codes,
  text_eq, trim, to_lower_case, includes, is_some, ltb, leb, ◌==◌, if◌then◌else◌, find, count,
}
use ghost_protocol.Prelude.Int.{ℤ, pos, is_positive, neg}
use ghost_protocol.Store.{
  CreditBalance, AccessNonce, debit, FulfillmentHold, held, Db, Error, failure, unique_violation,
  access_nonce_replay, Result, ok, err, M, ◌>>=◌, ◌>>◌, return, transaction, on_ok,
}
use ghost_protocol.Env.{Env}
use ghost_protocol.Credits.{
  normalize_address_key, to_prisma_int, find_balance, update_balance, write_credit_ledger,
  persist_access_nonce,
}
use ghost_protocol.Holds.{is_held, hold_id_is, expire_overdue_held_fulfillment_holds_for_wallet}
use ghost_protocol.Holds.Open.{
  CreateFulfillmentHoldInput, HoldMovement, CreateFulfillmentHoldResult, same_active, insert_hold,
  set_aside, new_hold, place_hold, ticket_nonce, report_hold, open_hold, created,
  insufficient_credits, wallet_hold_cap_exceeded, wallet_service_hold_exists, replay,
}

abbrev pub is_active_hold : Text → FulfillmentHold → Bool
is_active_hold wallet h = text_eq h.wallet_address wallet && is_held h.state

-- The checks on the balance that the sweep leaves.
unfoldable pub hold_if_covered :
    Env
    → Text
    → ℕ
    → Text
    → Text
    → ℕ
    → CreateFulfillmentHoldInput
    → ℕ
    → ℕ
    → M CreateFulfillmentHoldResult
unfolding open_hold
hold_if_covered env id now wallet owner cost input credits_before held_before db =
    if ltb credits_before cost
    then ok (insufficient_credits credits_before cost, db)
    else if leb input.wallet_hold_cap (count (is_active_hold wallet) db.holds)
    then ok (
      wallet_hold_cap_exceeded (count (is_active_hold wallet) db.holds) input.wallet_hold_cap,
      db,
    )
    else open_hold env id now wallet owner cost input credits_before held_before db

abbrev pub hold_swept :
    Env
    → Text
    → ℕ
    → Text
    → Text
    → ℕ
    → CreateFulfillmentHoldInput
    → ℕ × ℕ
    → M CreateFulfillmentHoldResult
hold_swept env id now wallet owner cost input (credits, held_credits) =
    hold_if_covered env id now wallet owner cost input credits held_credits

-- The transaction's body; the balance row is locked from its first read.
unfoldable pub hold_body :
    Env → Text → ℕ → Text → Text → ℕ → CreateFulfillmentHoldInput → M CreateFulfillmentHoldResult
unfolding hold_if_covered expire_overdue_held_fulfillment_holds_for_wallet
hold_body env id now wallet owner cost input db = elim (find_balance wallet db) [
  | none ↦ ok (insufficient_credits 0 cost, db)
  | some b ↦
      (expire_overdue_held_fulfillment_holds_for_wallet env wallet now b.credits b.held_credits
          >>= hold_swept env id now wallet owner cost input)
        db
]

is_active_hold_conflict : Error → Bool
is_active_hold_conflict (unique_violation target model) =
    let normalized = to_lower_case target in
    includes normalized (codes "fulfillmenthold_wallet_service_active_held_idx")
    || (includes normalized (codes "walletaddress") && includes normalized (codes "serviceslug"))
is_active_hold_conflict _ = false

-- The outer `catch`.
unfoldable pub replay_or_exists :
    Result CreateFulfillmentHoldResult → Result CreateFulfillmentHoldResult
unfolding is_active_hold_conflict
replay_or_exists (ok r) = ok r
replay_or_exists (err access_nonce_replay) = ok replay
replay_or_exists (err e) =
    if is_active_hold_conflict e then ok wallet_service_hold_exists else err e

-- The call once its arguments are normalised.
unfoldable pub hold_call :
    Env
    → Text
    → ℕ
    → Text
    → Text
    → ℕ
    → CreateFulfillmentHoldInput
    → Db
    → Result CreateFulfillmentHoldResult × Db
unfolding hold_body replay_or_exists
hold_call env id now wallet owner cost input db =
    let t = transaction (hold_body env id now wallet owner cost input) db in
    (replay_or_exists t.0, t.1)

-- `id` is the new row's cuid(), and `now` the clock.
unfoldable pub create_fulfillment_hold :
    Env → Text → ℕ → CreateFulfillmentHoldInput → Db → Result CreateFulfillmentHoldResult × Db
unfolding hold_call
create_fulfillment_hold env id now input db =
    if not (is_positive input.cost)
    then (err (failure "Fulfillment hold cost must be greater than zero."), db)
    else if input.wallet_hold_cap == 0
    then (err (failure "walletHoldCap must be a positive integer."), db)
    else on_ok (normalize_address_key env input.wallet_address) db λ wallet.
      on_ok (normalize_address_key env input.merchant_owner_address) db λ owner.
        on_ok (to_prisma_int input.cost) db λ cost. hold_call env id now wallet owner cost input db
