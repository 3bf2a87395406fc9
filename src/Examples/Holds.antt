-- ===== src/Examples/Holds.antt =====
-- Runs on holds: a ticket that is issued, captured, captured again, and expired.
use ghost_protocol.Prelude.{
  ℕ, ◌+◌, ◌≤◌, ◌≡◌, refl, Bool, true, false, not, Option, none, some, List, [], ◌∷◌, Text, codes,
  arith, find, sum_by, count, text_eq,
}
use ghost_protocol.Prelude.Int.{pos}
use ghost_protocol.Store.{FulfillmentHold, CaptureAttempt, captured, Db, ok}
use ghost_protocol.Credits.{normalize_address_key, find_balance}
use ghost_protocol.Credits.Balances.{held_of}
use ghost_protocol.Holds.Ids.{IsDistinct}
use ghost_protocol.Holds.Create.{create_fulfillment_hold}
use ghost_protocol.Holds.Open.{HoldMovement, same_active, created}
use ghost_protocol.Holds.Create.Ticket.{Ticketed, create_fulfillment_hold-Ticketed}
use ghost_protocol.Holds.Capture.{to_capture, capture_fulfillment_hold}
use ghost_protocol.Holds.Settle.{CaptureMovement, newly_captured, idempotent_replay}
use ghost_protocol.Holds.Capture.Replay.{Settled, capture_fulfillment_hold-Settled}
use ghost_protocol.Holds.Capture.Idempotent.{capture_fulfillment_hold-idempotent}
use ghost_protocol.Holds.Expire.{
  list_expired_fulfillment_hold_candidates, ExpiredHold, FulfillmentExpireSweepResult, expired_item,
  skipped_terminal, expire_fulfillment_hold_by_id, expire_fulfillment_holds,
}
use ghost_protocol.Holds.Expire.Refund.{Refunded, expire_fulfillment_hold_by_id-Refunded}
use ghost_protocol.Holds.Expire.Counts.{Counted, expire_fulfillment_holds-Counted}
use ghost_protocol.Holds.Solvency.{held_sum, total_of}
use ghost_protocol.Holds.Solvency.Sweep.{IsSound, IsSound-IsKept}
use ghost_protocol.Holds.Solvency.Create.{create_fulfillment_hold-IsKept}
use ghost_protocol.History.{
  Calls, add_credits, create_hold, capture_hold, expire_holds, no_calls, call_then, run_all,
  no_rounds, round_then,
}
use ghost_protocol.History.Solvency.{history-IsSound}
use ghost_protocol.History.Conservation.{fulfillment-total_of}
use ghost_protocol.Examples.{
  env, alice, merchant, service, funded_db, ticket_request, proof, held_db, captured_db,
}

abbrev empty_db : Db
empty_db = record funded_db { balances = [] }

-- Alice is given 100 credits and takes a ticket, and the merchant captures it between the list of an expiry
-- sweep and its transaction.
abbrev day : Calls
day = call_then (add_credits alice (pos 100)) (
    call_then (create_hold (codes "h1") 1000 ticket_request) (
      call_then
        (expire_holds
          (round_then (call_then (capture_hold (codes "e1") 1500 proof) no_calls) no_rounds) 2500
          10)
        no_calls))

history-IsSound_example :
    ((w : Text)
      → held_of (find_balance w (run_all env day empty_db))
        ≡ held_sum w (run_all env day empty_db).holds)
    × IsDistinct (run_all env day empty_db).holds
    × ((w s : Text) → count (same_active w s) (run_all env day empty_db).holds ≤ 1)
history-IsSound_example = history-IsSound env day empty_db refl refl

funded_db-IsSound : IsSound funded_db
unfolding find sum_by count
funded_db-IsSound = record {
  solvent = λ w. ground arith;
  distinct = tt;
  single = λ w s. ground arith;
}

held_db-IsSound : IsSound held_db
unfolding held_db create_fulfillment_hold
held_db-IsSound =
    (create_fulfillment_hold-IsKept env (codes "h1") 1000 ticket_request funded_db
      (IsSound-IsKept funded_db funded_db-IsSound)).sound

abbrev ticket_day : Calls
ticket_day =
    call_then (create_hold (codes "h1") 1000 ticket_request)
      (call_then (expire_holds (round_then no_calls no_rounds) 2500 10) no_calls)

fulfillment-total_of_example :
    total_of alice (run_all env ticket_day funded_db) ≡ total_of alice funded_db
unfolding ghost_protocol.History.Conservation.all_fulfillment
fulfillment-total_of_example =
    fulfillment-total_of env ticket_day funded_db funded_db-IsSound refl alice

abbrev ticket_movement : HoldMovement
ticket_movement = record {
  hold_id = codes "h1";
  ticket_id = codes "0xt1";
  wallet_address = alice;
  service_slug = service;
  cost = 30;
  credits_before = 100;
  credits_after = 70;
  held_credits_before = 0;
  held_credits_after = 30;
}

issued :
    create_fulfillment_hold env (codes "h1") 1000 ticket_request funded_db
    ≡ (ok (created ticket_movement), held_db)
unfolding create_fulfillment_hold normalize_address_key ghost_protocol.Credits.to_prisma_int find
    text_eq ghost_protocol.Prelude.to_lower_case ghost_protocol.Prelude.Sorting.sort_by
    ghost_protocol.Prelude.select count ghost_protocol.Credits.persist_access_nonce
    ghost_protocol.Credits.update_balance ghost_protocol.Credits.write_credit_ledger
    ghost_protocol.Credits.to_prisma_signed_int ghost_protocol.Prelude.trim
issued = refl

create_fulfillment_hold-Ticketed_example :
    Ticketed env (codes "h1") 1000 ticket_request ticket_movement funded_db held_db
create_fulfillment_hold-Ticketed_example =
    create_fulfillment_hold-Ticketed env (codes "h1") 1000 ticket_request funded_db issued

abbrev capture_movement : CaptureMovement
capture_movement = record {
  hold_id = codes "h1";
  captured_at = 1500;
  cost = 30;
  credits_before = 70;
  credits_after = 70;
  held_credits_before = 30;
  held_credits_after = 0;
}

done :
    capture_fulfillment_hold env (codes "e1") 1500 proof held_db
    ≡ (ok (newly_captured capture_movement), captured_db)
unfolding capture_fulfillment_hold create_fulfillment_hold normalize_address_key
    ghost_protocol.Prelude.to_lower_case ghost_protocol.Prelude.trim find
    ghost_protocol.Credits.to_prisma_int text_eq ghost_protocol.Prelude.Sorting.sort_by
    ghost_protocol.Prelude.select count ghost_protocol.Credits.persist_access_nonce
    ghost_protocol.Credits.update_balance ghost_protocol.Credits.write_credit_ledger
    ghost_protocol.Credits.to_prisma_signed_int ghost_protocol.Prelude.update
    ghost_protocol.Prelude.option_text_eq
    ghost_protocol.Settlement.Amounts.calculate_settlement_amounts
    ghost_protocol.Settlement.Amounts.build_fulfillment_capture_settlement_id
    ghost_protocol.Credits.create_merchant_earning ghost_protocol.Credits.insert_earning
    ghost_protocol.Credits.source_eq ghost_protocol.Credits.to_prisma_optional_int
done = refl

capture_fulfillment_hold-Settled_example :
    (signer : Text) × (h : FulfillmentHold) × (normalize_address_key env merchant ≡ ok signer)
    × Settled (to_capture proof signer) h capture_movement held_db captured_db
capture_fulfillment_hold-Settled_example =
    capture_fulfillment_hold-Settled env (codes "e1") 1500 proof held_db held_db-IsSound done

capture_fulfillment_hold-idempotent_example :
    (a : CaptureAttempt) × (capture_fulfillment_hold env (codes "e2") 1600 proof captured_db ≡ (
      ok (idempotent_replay (codes "h1") 1500),
      record captured_db { attempts = a ∷ captured_db.attempts },
    ))
capture_fulfillment_hold-idempotent_example =
    capture_fulfillment_hold-idempotent env (codes "e1") (codes "e2") 1500 1600 proof held_db
      held_db-IsSound done

abbrev expired_db : Db
unfolding expire_fulfillment_hold_by_id create_fulfillment_hold
expired_db = (expire_fulfillment_hold_by_id env (codes "h1") 2500 held_db).1

abbrev expired_movement : ExpiredHold
expired_movement = record {
  hold_id = codes "h1";
  cost = 30;
  credits_before = 70;
  credits_after = 100;
  held_credits_before = 30;
  held_credits_after = 0;
}

over :
    expire_fulfillment_hold_by_id env (codes "h1") 2500 held_db
    ≡ (ok (expired_item expired_movement), expired_db)
unfolding expire_fulfillment_hold_by_id create_fulfillment_hold normalize_address_key
    ghost_protocol.Prelude.to_lower_case ghost_protocol.Prelude.trim find
    ghost_protocol.Credits.to_prisma_int text_eq ghost_protocol.Prelude.Sorting.sort_by
    ghost_protocol.Prelude.select count ghost_protocol.Credits.persist_access_nonce
    ghost_protocol.Credits.update_balance ghost_protocol.Credits.write_credit_ledger
    ghost_protocol.Credits.to_prisma_signed_int ghost_protocol.Prelude.update
    ghost_protocol.Prelude.option_text_eq
over = refl

expire_fulfillment_hold_by_id-Refunded_example :
    (h : FulfillmentHold) × Refunded (codes "h1") 2500 expired_movement h held_db expired_db
expire_fulfillment_hold_by_id-Refunded_example =
    expire_fulfillment_hold_by_id-Refunded env (codes "h1") 2500 held_db held_db-IsSound over

abbrev report : FulfillmentExpireSweepResult
report = record {
  selected = 1;
  processed = 1;
  released_count = 0;
  skipped_terminal_count = 1;
  skipped_not_due_count = 0;
  errors = 0;
  results = skipped_terminal (codes "h1") captured ∷ [];
}

-- The merchant captures the hold after the sweep has listed it.
abbrev capture_first : ℕ → Db → Db
unfolding capture_fulfillment_hold
capture_first n db = (capture_fulfillment_hold env (codes "e1") 1500 proof db).1

swept : expire_fulfillment_holds env capture_first 2500 10 held_db ≡ (ok report, captured_db)
unfolding expire_fulfillment_holds expire_fulfillment_hold_by_id create_fulfillment_hold
    capture_first capture_fulfillment_hold list_expired_fulfillment_hold_candidates
    normalize_address_key ghost_protocol.Prelude.to_lower_case ghost_protocol.Prelude.trim find
    ghost_protocol.Credits.to_prisma_int text_eq ghost_protocol.Prelude.Sorting.sort_by
    ghost_protocol.Prelude.select count ghost_protocol.Credits.persist_access_nonce
    ghost_protocol.Credits.update_balance ghost_protocol.Credits.write_credit_ledger
    ghost_protocol.Credits.to_prisma_signed_int ghost_protocol.Prelude.update
    ghost_protocol.Prelude.option_text_eq
    ghost_protocol.Settlement.Amounts.calculate_settlement_amounts
    ghost_protocol.Settlement.Amounts.build_fulfillment_capture_settlement_id
    ghost_protocol.Credits.create_merchant_earning ghost_protocol.Credits.insert_earning
    ghost_protocol.Credits.source_eq ghost_protocol.Credits.to_prisma_optional_int
swept = refl

expire_fulfillment_holds-Counted_example : Counted 1 report × (1 ≤ 10)
expire_fulfillment_holds-Counted_example =
    expire_fulfillment_holds-Counted env capture_first 2500 10 held_db swept
