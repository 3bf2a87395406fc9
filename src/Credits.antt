-- ===== src/Credits.antt =====
-- The writes that the credit operations of lib/db.ts share: conversions to column types, the credit
-- ledger, access nonces, and merchant earnings.
pub mod Balances
pub mod Gate
pub mod Sync
pub mod Frame
use ghost_protocol.Prelude.{
  ℕ, ◌+◌, ◌^◌, ◌-◌, Bool, true, false, ◌&&◌, ◌||◌, not, Option, none, some, [], ◌∷◌, Text, String,
  codes, text_eq, option_text_eq, trim, trim_or_null, to_lower_case, is_empty, includes, is_some,
  ltb, leb, ◌==◌, if◌then◌else◌, find, update,
}
use ghost_protocol.Prelude.Int.{ℤ, pos, negsuc}
use ghost_protocol.Store.{
  CreditBalance, Direction, LedgerEntry, AccessNonce, EarningSource, gate_debit,
  fulfillment_capture, MerchantEarning, pending, Db, Error, failure, unique_violation,
  record_not_found, out_of_range, access_nonce_replay, Result, ok, err, M, ◌>>=◌, ◌>>◌, return,
  throw, get, put, lift, guard,
}
use ghost_protocol.Env.{Env}

abbrev pub max_prisma_int : ℕ
max_prisma_int = 2_147_483_647

-- The largest BigInt column value.
abbrev max_big_int : ℕ
max_big_int = 9_223_372_036_854_775_807

unfoldable pub normalize_address_key : Env → Text → Result Text
normalize_address_key env address = elim (env.get_address address) [
  | none ↦ err (failure "Invalid address")
  | some checksummed ↦ ok (to_lower_case checksummed)
]

unfoldable pub to_prisma_int : ℤ → Result ℕ
to_prisma_int (negsuc n) = err (failure "must be non-negative.")
to_prisma_int (pos n) =
    if ltb max_prisma_int n then err (failure "exceeds Int column capacity.") else ok n

-- `value < -2147483648n || value > 2147483647n`; -(n + 1) is below the column when n is above 2^31 - 1.
unfoldable pub to_prisma_signed_int : ℤ → Result ℤ
to_prisma_signed_int (negsuc n) =
    if ltb max_prisma_int n then err (failure "exceeds Int column capacity.") else ok (negsuc n)
to_prisma_signed_int (pos n) =
    if ltb max_prisma_int n then err (failure "exceeds Int column capacity.") else ok (pos n)

unfoldable pub to_prisma_optional_int : Option ℤ → Option ℕ
to_prisma_optional_int none = none
to_prisma_optional_int (some (negsuc n)) = none
to_prisma_optional_int (some (pos n)) = if ltb max_prisma_int n then none else some n

abbrev pub wallet_is : Text → CreditBalance → Bool
wallet_is w b = text_eq b.wallet_address w

abbrev pub find_balance : Text → Db → Option CreditBalance
find_balance w db = find (wallet_is w) db.balances

-- `creditBalance.update` of one row; the database refuses a number beyond its Int column.
unfoldable pub update_balance : Text → (CreditBalance → CreditBalance) → M CreditBalance
update_balance w f db = elim (find_balance w db) [
  | none ↦ err record_not_found
  | some b ↦
      if leb (f b).credits max_prisma_int && leb (f b).held_credits max_prisma_int
      then ok (f b, record db { balances = update (wallet_is w) f db.balances })
      else err out_of_range
]

pub record LedgerWrite : Type 0 where
  pub wallet_address : Text
  pub direction : Direction
  pub amount : ℕ
  pub available_credits_delta : Option ℤ
  pub held_credits_delta : Option ℤ
  pub balance_before : ℕ
  pub balance_after : ℕ
  pub reason : Text
  pub service : Option Text
  pub nonce : Option Text
  pub request_id : Option Text

optional_delta : Option ℤ → Result (Option ℤ)
optional_delta none = ok none
optional_delta (some d) = elim (to_prisma_signed_int d) [ ok c ↦ ok (some c) | err e ↦ err e ]

same_request : LedgerEntry → LedgerEntry → Bool
same_request e f =
    is_some e.request_id
    && text_eq e.wallet_address f.wallet_address
    && option_text_eq e.request_id f.request_id

-- The create and the index on (walletAddress, requestId); null request ids never clash.
insert_ledger : LedgerEntry → M (Unit {0})
unfolding same_request
insert_ledger e db =
    if is_some (find (same_request e) db.ledger)
    then err (unique_violation (codes "walletAddress,requestId") (codes "creditLedger"))
    else ok (tt, record db { ledger = e ∷ db.ledger })

unfoldable pub write_credit_ledger : Env → LedgerWrite → M (Unit {0})
unfolding optional_delta insert_ledger
write_credit_ledger env input =
    if not env.credit_ledger_enabled || input.amount == 0 then return tt else do
      amount ← lift (to_prisma_int (pos input.amount))
      available ← lift (optional_delta input.available_credits_delta)
      held ← lift (optional_delta input.held_credits_delta)
      before ← lift (to_prisma_int (pos input.balance_before))
      after ← lift (to_prisma_int (pos input.balance_after))
      insert_ledger (record {
        wallet_address = input.wallet_address;
        direction = input.direction;
        amount = amount;
        available_credits_delta = available;
        held_credits_delta = held;
        balance_before = before;
        balance_after = after;
        reason = input.reason;
        service = input.service;
        nonce = input.nonce;
        request_id = input.request_id;
      })

abbrev pub same_nonce : AccessNonce → AccessNonce → Bool
same_nonce n m = text_eq n.signer m.signer && text_eq n.service m.service && text_eq n.nonce m.nonce

-- `createMany` with `skipDuplicates`; the result is `accepted`.
unfoldable pub persist_access_nonce : Env → AccessNonce → Bool → M Bool
persist_access_nonce env nonce enforce_unique db =
    if not env.gate_nonce_store_enabled
    then ok (true, db)
    else if is_some (find (same_nonce nonce) db.nonces)
    then if enforce_unique then err access_nonce_replay else ok (false, db)
    else ok (true, record db { nonces = nonce ∷ db.nonces })

pub record CreateMerchantEarningInput : Type 0 where
  pub settlement_id : Text
  pub wallet_address : Text
  pub merchant_owner_address : Text
  pub agent_id : Option Text
  pub service_slug : Text
  pub source_type : EarningSource
  pub source_id : Text
  pub gross_credits : ℕ
  pub gross_wei : ℕ
  pub fee_wei : ℕ
  pub net_wei : ℕ

unfoldable pub source_eq : EarningSource → EarningSource → Bool
source_eq gate_debit gate_debit = true
source_eq fulfillment_capture fulfillment_capture = true
source_eq _ _ = false

same_source : MerchantEarning → MerchantEarning → Bool
unfolding source_eq
same_source e f = source_eq e.source_type f.source_type && text_eq e.source_id f.source_id

-- The create, its two unique indexes, and the BigInt columns.
unfoldable pub insert_earning : MerchantEarning → M (Unit {0})
unfolding same_source
insert_earning e db =
    if ltb max_big_int e.gross_wei
    then err out_of_range
    else if is_some (find (λ f. text_eq f.settlement_id e.settlement_id) db.earnings)
    then err (unique_violation (codes "settlementId") (codes "merchantEarning"))
    else if is_some (find (same_source e) db.earnings)
    then err (unique_violation (codes "sourceType,sourceId") (codes "merchantEarning"))
    else ok (tt, record db { earnings = e ∷ db.earnings })

-- `id` and `now` are the row's defaults, cuid() and now().
unfoldable pub create_merchant_earning : Env → Text → ℕ → CreateMerchantEarningInput → M (Unit {0})
unfolding insert_earning
create_merchant_earning env id now input = do
  let settlement_id = to_lower_case (trim input.settlement_id)
  let source_id = trim input.source_id
  let service_slug = trim input.service_slug
  guard (not (is_empty settlement_id)) (failure "settlementId is required.")
  guard (not (is_empty source_id)) (failure "sourceId is required.")
  guard (not (is_empty service_slug)) (failure "serviceSlug is required.")
  guard (not (input.gross_credits == 0)) (failure "grossCredits must be greater than zero.")
  guard (not (input.gross_wei == 0)) (failure "grossWei must be greater than zero.")
  guard (input.fee_wei + input.net_wei == input.gross_wei)
      (failure "grossWei must equal feeWei + netWei.")
  wallet ← lift (normalize_address_key env input.wallet_address)
  owner ← lift (normalize_address_key env input.merchant_owner_address)
  gross_credits ← lift (to_prisma_int (pos input.gross_credits))
  insert_earning (record {
    id = id;
    settlement_id = settlement_id;
    wallet_address = wallet;
    merchant_owner_address = owner;
    agent_id = trim_or_null input.agent_id;
    service_slug = service_slug;
    source_type = input.source_type;
    source_id = source_id;
    gross_credits = gross_credits;
    gross_wei = input.gross_wei;
    fee_wei = input.fee_wei;
    net_wei = input.net_wei;
    status = pending;
    settlement_rollup_id = none;
    allocator_batch_id = none;
    tx_hash = none;
    failure_code = none;
    created_at = now;
    updated_at = now;
  })

-- The test of lib/db.ts on a P2002 error.
unfoldable pub is_gate_replay_conflict : Error → Bool
is_gate_replay_conflict (unique_violation target model) =
    includes (to_lower_case model) (codes "creditledger")
    || includes (to_lower_case model) (codes "merchantearning")
    || includes (to_lower_case target) (codes "requestid")
    || includes (to_lower_case target) (codes "settlementid")
    || (includes (to_lower_case target) (codes "sourcetype")
        && includes (to_lower_case target) (codes "sourceid"))
is_gate_replay_conflict _ = false
