-- ===== src/Credits/Sync.antt =====
-- lib/db.ts, syncDeposits: credits bought by on-chain deposits, written by compare-and-set on the
-- last synced block. Block numbers stay within their BigInt column.
pub mod CompareAndSet
use ghost_protocol.Prelude.{
  ℕ, ◌+◌, ◌/◌, Bool, true, false, ◌&&◌, not, Option, none, some, ◌∷◌, Text, codes, ltb, ◌==◌,
  if◌then◌else◌, update, is_some,
}
use ghost_protocol.Prelude.Int.{ℤ, pos, pos_part, is_positive, is_negative}
use ghost_protocol.Store.{
  CreditBalance, credit, Db, Error, failure, Result, ok, err, M, ◌>>=◌, ◌>>◌, return, transaction,
  on_ok,
}
use ghost_protocol.Env.{Env}
use ghost_protocol.Credits.{
  normalize_address_key, to_prisma_int, wallet_is, find_balance, write_credit_ledger,
}
use ghost_protocol.Credits.Balances.{credits_of, new_balance, Movement, plain_entry}

pub record SyncDepositsOptions : Type 0 where
  pub expected_last_synced_block : Option ℤ
  pub allow_last_synced_block_rollback : Bool

pub record SyncDepositsResult : Type 0 where
  pub before : ℕ
  pub added : ℕ
  pub after : ℕ
  pub last_synced_block : ℕ
  pub applied : Bool
  pub conflict : Bool

abbrev pub block_of : Option CreditBalance → ℕ
block_of none = 0
block_of (some b) = b.last_synced_block

-- The answer to a caller whose view of the row was stale.
abbrev pub conflict_at : Option CreditBalance → SyncDepositsResult
conflict_at current = record {
  before = credits_of current;
  added = 0;
  after = credits_of current;
  last_synced_block = block_of current;
  applied = false;
  conflict = true;
}

unfoldable pub log_sync : Env → Text → ℕ → ℕ → ℕ → M (Unit {0})
log_sync env key added before after =
    if added == 0
    then return tt
    else write_credit_ledger env (
        plain_entry key credit added (record { before = before; after = after })
          (codes "vault_sync"))

-- The path for a wallet that had no row when it was read.
unfoldable pub sync_created : Env → Text → ℕ → ℕ → M SyncDepositsResult
unfolding log_sync
sync_created env key added block db = elim (to_prisma_int (pos added)) [
  | err e ↦ err e
  | ok credits ↦ elim (find_balance key db) [
    | some current ↦ ok (conflict_at (some current), db)
    | none ↦
        (do
          log_sync env key added 0 credits
          return (record {
            before = 0;
            added = added;
            after = credits;
            last_synced_block = block;
            applied = true;
            conflict = false;
          }))
          (record db { balances = new_balance key credits block ∷ db.balances })
  ]
]

-- The block that the row moves to.
unfoldable pub next_synced_block : Bool → ℕ → ℕ → ℕ
next_synced_block rollback synced_to existing =
    if rollback && ltb synced_to existing
    then synced_to
    else if ltb existing synced_to
    then synced_to
    else existing

-- The path for a row that was read as `existing`.
unfoldable pub sync_existing : Env → Text → ℕ → ℕ → Bool → CreditBalance → M SyncDepositsResult
unfolding log_sync next_synced_block
sync_existing env key added synced_to rollback existing db =
    let next = next_synced_block rollback synced_to existing.last_synced_block in
    elim (to_prisma_int (pos (existing.credits + added))) [
      | err e ↦ err e
      | ok credits ↦
          if is_some (find_balance key db)
            && block_of (find_balance key db) == existing.last_synced_block
          then (do
            log_sync env key added existing.credits credits
            return (record {
              before = existing.credits;
              added = added;
              after = credits;
              last_synced_block = next;
              applied = true;
              conflict = false;
            }))
              (record db {
                balances =
                    update (wallet_is key)
                      (λ b. record b { credits = credits; last_synced_block = next }) db.balances;
              })
          else ok (conflict_at (find_balance key db), db)
    ]

-- The block that the caller expects, the one just read if it names none.
unfoldable pub expected_block : Option ℤ → ℕ → ℕ
expected_block none actual = actual
expected_block (some e) actual = pos_part e

-- The read, and the write over what others have committed since.
unfoldable pub sync_locked :
    Env → (Db → Db) → Text → ℕ → ℕ → SyncDepositsOptions → Db → Result SyncDepositsResult × Db
unfolding sync_created sync_existing expected_block
sync_locked env between key added block options db =
    let existing = find_balance key db in
    let expected = expected_block options.expected_last_synced_block (block_of existing) in
    if not (block_of existing == expected) then (ok (conflict_at existing), db) else elim existing [
      | none ↦ transaction (sync_created env key added block) (between db)
      | some b ↦
          transaction (sync_existing env key added block options.allow_last_synced_block_rollback b)
            (between db)
    ]

abbrev pub expected_is_negative : Option ℤ → Bool
expected_is_negative none = false
expected_is_negative (some e) = is_negative e

unfoldable pub sync_deposits :
    Env → (Db → Db) → Text → ℤ → ℤ → ℤ → SyncDepositsOptions → Db → Result SyncDepositsResult × Db
unfolding sync_locked
sync_deposits env between user deposited_wei credit_price_wei synced_to_block options db =
    if not (is_positive credit_price_wei)
    then (err (failure "creditPriceWei must be greater than zero."), db)
    else if is_negative synced_to_block
    then (err (failure "syncedToBlock must be non-negative."), db)
    else if expected_is_negative options.expected_last_synced_block
    then (err (failure "expectedLastSyncedBlock must be non-negative."), db)
    else on_ok (normalize_address_key env user) db λ key.
      sync_locked env between key (pos_part deposited_wei / pos_part credit_price_wei)
        (pos_part synced_to_block) options db
