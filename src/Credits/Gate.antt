-- ===== src/Credits/Gate.antt =====
-- lib/db.ts, consumeUserCreditsForGate: one paid request at the gate. The debit, the nonce, the
-- ledger entry and the merchant's earning stand in one transaction.
pub mod Outcomes
use ghost_protocol.Prelude.{
  ℕ, Bool, true, false, not, Option, none, some, List, [], ◌++◌, Text, codes, trim, trim_or_null,
  is_empty, ltb, if◌then◌else◌, or_else,
}
use ghost_protocol.Prelude.Int.{ℤ, pos, pos_part, is_positive}
use ghost_protocol.Store.{
  debit, gate_debit, Db, Error, failure, unique_violation, record_not_found, out_of_range,
  access_nonce_replay, gate_source_replay, Result, ok, err, M, ◌>>=◌, ◌>>◌, return, lift, guard,
  transaction, on_ok, AccessNonce,
}
use ghost_protocol.Env.{Env}
use ghost_protocol.Settlement.Amounts.{calculate_settlement_amounts, build_gate_settlement_id}
use ghost_protocol.Credits.{
  normalize_address_key, to_prisma_int, find_balance, write_credit_ledger, persist_access_nonce,
  create_merchant_earning, is_gate_replay_conflict,
}
use ghost_protocol.Credits.Balances.{credits_of, debit_if_covered}

pub record ConsumeGateCreditsOptions : Type 0 where
  pub service : Text
  pub nonce : Text
  pub payload_timestamp : ℕ
  pub signature : Option Text
  pub request_id : Option Text
  pub enforce_nonce_uniqueness : Bool
  pub merchant_owner_address : Option Text
  pub agent_id : Option Text

pub data ConsumeGateCreditsResult : Type 0 where
  accepted : ℕ → ℕ → Bool → ConsumeGateCreditsResult
  insufficient_credits : ConsumeGateCreditsResult
  replay : ConsumeGateCreditsResult

unfoldable pub gate_earning :
    Env → Text → ℕ → Text → ℕ → ConsumeGateCreditsOptions → Text → M (Unit {0})
gate_earning env id now key cost options owner = do
  let request_id = trim (or_else options.request_id [])
  guard (not (is_empty request_id)) (failure "requestId is required for gate merchant settlement.")
  amounts ← lift (calculate_settlement_amounts (pos cost) none none)
  settlement_id ← lift (build_gate_settlement_id env key request_id)
  create_merchant_earning env id now (record {
    settlement_id = settlement_id;
    wallet_address = key;
    merchant_owner_address = owner;
    agent_id = trim_or_null options.agent_id;
    service_slug = options.service;
    source_type = gate_debit;
    source_id = key ++ codes ":" ++ request_id;
    gross_credits = cost;
    gross_wei = amounts.gross_wei;
    fee_wei = amounts.fee_wei;
    net_wei = amounts.net_wei;
  })

-- `if (options.merchantOwnerAddress)`: null and the empty string are falsy.
unfoldable pub earning_if_owned :
    Env → Text → ℕ → Text → ℕ → ConsumeGateCreditsOptions → Option Text → M (Unit {0})
unfolding gate_earning
earning_if_owned env id now key cost options none = return tt
earning_if_owned env id now key cost options (some owner) =
    if is_empty owner then return tt else gate_earning env id now key cost options owner

-- The body of the inner `try`.
unfoldable pub book_gate_debit :
    Env → Text → ℕ → Text → ℕ → ConsumeGateCreditsOptions → ℕ → ℕ → M (Unit {0})
unfolding earning_if_owned
book_gate_debit env id now key cost options before after = do
  write_credit_ledger env (record {
    wallet_address = key;
    direction = debit;
    amount = cost;
    available_credits_delta = none;
    held_credits_delta = none;
    balance_before = before;
    balance_after = after;
    reason = codes "gate_debit";
    service = some options.service;
    nonce = some options.nonce;
    request_id = options.request_id;
  })
  earning_if_owned env id now key cost options options.merchant_owner_address

-- `if (isGateReplayConflict(error)) throw new GateSourceReplayError()`.
unfoldable pub as_gate_replay {ℓ} : {A : Type ℓ} → Result A → Result A
as_gate_replay (ok a) = ok a
as_gate_replay (err e) = if is_gate_replay_conflict e then err gate_source_replay else err e

-- The nonce that the request spends.
abbrev pub gate_nonce : Text → ConsumeGateCreditsOptions → AccessNonce
gate_nonce key options = record {
  signer = key;
  service = options.service;
  nonce = options.nonce;
  payload_timestamp = options.payload_timestamp;
  signature = options.signature;
}

-- The inner `try` and its `catch`.
unfoldable pub book_or_replay :
    Env → Text → ℕ → Text → ℕ → ConsumeGateCreditsOptions → ℕ → ℕ → M (Unit {0})
unfolding book_gate_debit as_gate_replay
book_or_replay env id now key cost options before after db =
    as_gate_replay (book_gate_debit env id now key cost options before after db)

-- What follows the guarded write of a covered debit.
unfoldable pub gate_debited :
    Env → Text → ℕ → Text → ℕ → ConsumeGateCreditsOptions → ℕ → ℕ → M ConsumeGateCreditsResult
unfolding book_or_replay
gate_debited env id now key cost options before after = do
  nonce_accepted ←
      persist_access_nonce env (gate_nonce key options) options.enforce_nonce_uniqueness
  book_or_replay env id now key cost options before after
  return (accepted before after nonce_accepted)

unfoldable pub gate_consumed :
    Env → Text → ℕ → Text → ℕ → ConsumeGateCreditsOptions → ℕ → Bool → M ConsumeGateCreditsResult
unfolding gate_debited
gate_consumed env id now key cost options before false db = ok (insufficient_credits, db)
gate_consumed env id now key cost options before true db = elim (find_balance key db) [
  | none ↦ ok (insufficient_credits, db)
  | some b ↦ gate_debited env id now key cost options before b.credits db
]

-- The outer `catch`.
unfoldable pub replay_or_rethrow : Result ConsumeGateCreditsResult → Result ConsumeGateCreditsResult
replay_or_rethrow (ok r) = ok r
replay_or_rethrow (err access_nonce_replay) = ok replay
replay_or_rethrow (err gate_source_replay) = ok replay
replay_or_rethrow (err e) = err e

unfoldable pub gate_call :
    Env
    → (Db → Db)
    → Text
    → ℕ
    → Text
    → ℕ
    → ℕ
    → ConsumeGateCreditsOptions
    → Db
    → Result ConsumeGateCreditsResult × Db
unfolding gate_consumed replay_or_rethrow
gate_call env between id now key cost charge options db =
    let before = credits_of (find_balance key db) in
    if ltb before cost
    then (ok insufficient_credits, db)
    else let t =
        transaction
          (debit_if_covered key charge >>= gate_consumed env id now key cost options before)
          (between db) in
      (replay_or_rethrow t.0, t.1)

-- `id` and `now` are the defaults of the earning's row.
unfoldable pub consume_user_credits_for_gate :
    Env
    → (Db → Db)
    → Text
    → ℕ
    → Text
    → ℤ
    → ConsumeGateCreditsOptions
    → Db
    → Result ConsumeGateCreditsResult × Db
unfolding gate_call
consume_user_credits_for_gate env between id now user cost options db =
    if not (is_positive cost)
    then (ok insufficient_credits, db)
    else on_ok (normalize_address_key env user) db λ key.
      on_ok (to_prisma_int cost) db
        λ charge. gate_call env between id now key (pos_part cost) charge options db
