-- ===== src/Credits/Balances.antt =====
-- lib/db.ts: reading a balance, setting it, adding to it, and consuming credits. A body that reads
-- without a lock takes `between`, what other transactions commit before its guarded write.
pub mod Overdraft
use ghost_protocol.Prelude.{
  not, ℕ, zero, suc, ◌+◌, ◌-◌, Bool, true, false, Option, none, some, ◌∷◌, Text, codes, ltb, leb,
  ◌==◌, if◌then◌else◌, find, update, text_eq, or_else,
}
use ghost_protocol.Prelude.Int.{ℤ, pos, pos_part, is_positive}
use ghost_protocol.Store.{
  CreditBalance, ServicePricing, Direction, credit, debit, Db, Error, failure, Result, ok, err, M,
  ◌>>=◌, ◌>>◌, return, get, transaction, on_ok,
}
use ghost_protocol.Env.{Env}
use ghost_protocol.Credits.{
  normalize_address_key, to_prisma_int, wallet_is, find_balance, update_balance, LedgerWrite,
  write_credit_ledger,
}

-- `existing?.credits ?? 0`.
abbrev pub credits_of : Option CreditBalance → ℕ
credits_of none = 0
credits_of (some b) = b.credits

abbrev pub held_of : Option CreditBalance → ℕ
held_of none = 0
held_of (some b) = b.held_credits

pub get_credit_balance : Env → Text → Db → Result (Option CreditBalance)
get_credit_balance env user db = elim (normalize_address_key env user) [
  | ok key ↦ ok (find_balance key db)
  | err e ↦ err e
]

pub get_user_credits : Env → Text → Db → Result ℕ
unfolding get_credit_balance
get_user_credits env user db = elim (get_credit_balance env user db) [
  | ok b ↦ ok (credits_of b)
  | err e ↦ err e
]

unfoldable pub get_service_credit_cost : Text → Db → Option ℕ
get_service_credit_cost service db =
    elim (find (λ (p : ServicePricing). text_eq p.service service) db.pricing) [
      | none ↦ none
      | some p ↦ if p.is_active then some p.cost else none
    ]

abbrev pub new_balance : Text → ℕ → ℕ → CreditBalance
new_balance key credits block = record {
  wallet_address = key;
  credits = credits;
  held_credits = 0;
  last_synced_block = block;
}

-- `creditBalance.upsert`, with the change for a row that is there.
unfoldable pub upsert_balance : Text → ℕ → (CreditBalance → CreditBalance) → M CreditBalance
upsert_balance key initial f db = elim (find_balance key db) [
  | none ↦
      ok (
        new_balance key initial 0,
        record db { balances = new_balance key initial 0 ∷ db.balances },
      )
  | some b ↦ update_balance key f db
]

pub record Movement : Type 0 where
  pub before : ℕ
  pub after : ℕ

-- A ledger entry that moves no held credits.
abbrev pub plain_entry : Text → Direction → ℕ → Movement → Text → LedgerWrite
plain_entry key direction amount m reason = record {
  wallet_address = key;
  direction = direction;
  amount = amount;
  available_credits_delta = none;
  held_credits_delta = none;
  balance_before = m.before;
  balance_after = m.after;
  reason = reason;
  service = none;
  nonce = none;
  request_id = none;
}

-- `delta > 0n ? "CREDIT" : "DEBIT"`, with `abs(delta)`.
set_entry : Text → Movement → LedgerWrite
set_entry key m =
    if ltb m.before m.after
    then plain_entry key credit (m.after - m.before) m (codes "manual_set_balance")
    else plain_entry key debit (m.before - m.after) m (codes "manual_set_balance")

-- The body for a key and a balance in column types.
unfoldable pub set_body : Env → Text → ℕ → M CreditBalance
unfolding set_entry upsert_balance
set_body env key credits = do
  db ← get
  let before = credits_of (find_balance key db)
  updated ← upsert_balance key credits (λ b. record b { credits = credits })
  write_credit_ledger env (set_entry key (record { before = before; after = updated.credits }))
  return updated

unfoldable pub update_user_credits : Env → Text → ℤ → Db → Result CreditBalance × Db
unfolding set_body
update_user_credits env user amount db =
    on_ok (normalize_address_key env user) db
      λ key. on_ok (to_prisma_int amount) db λ credits. transaction (set_body env key credits) db

unfoldable pub add_body : Env → Text → ℕ → ℕ → M (Option Movement)
unfolding upsert_balance
add_body env key amount increment = do
  updated ← upsert_balance key increment (λ b. record b { credits = b.credits + increment })
  let after = updated.credits
  let m : Movement = record { before = after - amount; after = after }
  write_credit_ledger env (plain_entry key credit amount m (codes "manual_credit_add"))
  return (some m)

unfoldable pub add_user_credits : Env → Text → ℤ → Db → Result (Option Movement) × Db
unfolding add_body
add_user_credits env user amount db =
    if not (is_positive amount)
    then (ok none, db)
    else on_ok (normalize_address_key env user) db λ key.
      on_ok (to_prisma_int amount) db
        λ increment. transaction (add_body env key (pos_part amount) increment) db

pub record ConsumeUserCreditsOptions : Type 0 where
  pub reason : Option Text
  pub service : Option Text
  pub nonce : Option Text
  pub request_id : Option Text

-- `updateMany` where the wallet has at least `charge` credits; the result is `count > 0`.
unfoldable pub debit_if_covered : Text → ℕ → M Bool
debit_if_covered key charge db = elim (find_balance key db) [
  | none ↦ ok (false, db)
  | some b ↦
      if leb charge b.credits
      then ok (
        true,
        record db {
          balances =
              update (wallet_is key) (λ c. record c { credits = c.credits - charge }) db.balances;
        },
      )
      else ok (false, db)
]

abbrev pub consumption_entry : Text → ℕ → ConsumeUserCreditsOptions → Movement → LedgerWrite
consumption_entry key cost options m = record {
  wallet_address = key;
  direction = debit;
  amount = cost;
  available_credits_delta = none;
  held_credits_delta = none;
  balance_before = m.before;
  balance_after = m.after;
  reason = or_else options.reason (codes "credit_consume");
  service = options.service;
  nonce = options.nonce;
  request_id = options.request_id;
}

-- What follows the guarded write, which read `before` before it.
unfoldable pub consume_covered :
    Env → Text → ℕ → ConsumeUserCreditsOptions → ℕ → Bool → M (Option Movement)
consume_covered env key cost options before false db = ok (none, db)
consume_covered env key cost options before true db = elim (find_balance key db) [
  | none ↦ ok (none, db)
  | some b ↦
      let m : Movement = record { before = before; after = b.credits } in
      (write_credit_ledger env (consumption_entry key cost options m) >> return (some m)) db
]

unfoldable pub consume_call :
    Env → (Db → Db) → Text → ℕ → ℕ → ConsumeUserCreditsOptions → Db → Result (Option Movement) × Db
unfolding consume_covered
consume_call env between key cost charge options db =
    let before = credits_of (find_balance key db) in
    if ltb before cost
    then (ok none, db)
    else transaction (debit_if_covered key charge >>= consume_covered env key cost options before)
        (between db)

unfoldable pub consume_user_credits :
    Env → (Db → Db) → Text → ℤ → ConsumeUserCreditsOptions → Db → Result (Option Movement) × Db
unfolding consume_call
consume_user_credits env between user cost options db =
    if not (is_positive cost)
    then (ok none, db)
    else on_ok (normalize_address_key env user) db λ key.
      on_ok (to_prisma_int cost) db
        λ charge. consume_call env between key (pos_part cost) charge options db
