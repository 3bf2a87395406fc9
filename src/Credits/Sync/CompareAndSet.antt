-- ===== src/Credits/Sync/CompareAndSet.antt =====
-- lib/db.ts, syncDeposits: an applied sync, in terms of the row that it read and the row that
-- others left.
use mathlib.Core.Path.{subst}
use ghost_protocol.Prelude.{
  ℕ, ◌+◌, ◌/◌, ◌≤◌, ◌<◌, ◌≡◌, ◌≢◌, refl, inl, inr, Bool, true, false, Option, none, some, ◌∷◌, Text,
  find, update, text_eq_refl, find-update_self, arith, Option-cases,
}
use ghost_protocol.Prelude.Int.{ℤ, pos_part}
use ghost_protocol.Store.{CreditBalance, Db, ok, Result-cases, transaction, transaction-eq-ok}
use ghost_protocol.Env.{Env}
use ghost_protocol.Credits.{
  normalize_address_key, to_prisma_int, find_balance, wallet_is, write_credit_ledger,
}
use ghost_protocol.Credits.Balances.{credits_of, new_balance}
use ghost_protocol.Credits.Balances.Overdraft.{Debits}
use ghost_protocol.Credits.Sync.{
  SyncDepositsOptions, SyncDepositsResult, block_of, log_sync, sync_created, next_synced_block,
  sync_existing, sync_locked, sync_deposits,
}

-- What an applied sync leaves in the wallet's row, from the row as it was read.
pub record Synced (key : Text) (read : Option CreditBalance) (added : ℕ) (r : SyncDepositsResult)
    (db' : Db) : Type 0 where
  pub credits : credits_of (find_balance key db') ≡ credits_of read + added
  pub block : block_of (find_balance key db') ≡ r.last_synced_block
  pub before : r.before ≡ credits_of read
  pub after : r.after ≡ credits_of read + added

sync_created-Synced :
    (env : Env) (key : Text) (added block : ℕ) (db : Db) {r : SyncDepositsResult} {db' : Db}
    → sync_created env key added block db ≡ ok (r, db')
    → r.applied ≡ true
    → Synced key none added r db'
      × (r.last_synced_block ≡ block)
      × (block_of (find_balance key db) ≡ 0)
unfolding sync_created log_sync write_credit_ledger to_prisma_int find
sync_created-Synced env key added block db {r} {db'} e done =
    elim (Option-cases (find_balance key db)) [
      | inr (b, there) ↦ absurd (ground arith)
      | inl fresh ↦
          let bs : db'.balances ≡ new_balance key added block ∷ db.balances = ground arith in
          let here : find_balance key db' ≡ some (new_balance key added block) =
            rw (bs, find, text_eq_refl key) refl in
          (
            record {
              credits = rw here (ground arith);
              block = rw here (ground arith);
              before = ground arith;
              after = ground arith;
            },
            ground arith,
            rw fresh refl,
          )
    ]

sync_existing-Synced :
    (env : Env) (key : Text) (added synced_to : ℕ) (rollback : Bool) (existing : CreditBalance)
    (db : Db) {r : SyncDepositsResult} {db' : Db}
    → sync_existing env key added synced_to rollback existing db ≡ ok (r, db')
    → r.applied ≡ true
    → Synced key (some existing) added r db'
      × (r.last_synced_block ≡ next_synced_block rollback synced_to existing.last_synced_block)
      × (block_of (find_balance key db) ≡ existing.last_synced_block)
unfolding sync_existing log_sync write_credit_ledger to_prisma_int
sync_existing-Synced env key added synced_to rollback existing db {r} {db'} e done =
    elim (Option-cases (find_balance key db)) [
      | inl gone ↦ absurd (ground arith)
      | inr (b, there) ↦
          let next = next_synced_block rollback synced_to existing.last_synced_block in
          let f : CreditBalance → CreditBalance =
            λ c. record c { credits = existing.credits + added; last_synced_block = next } in
          let bs : db'.balances ≡ update (wallet_is key) f db.balances = ground arith in
          let here : find_balance key db' ≡ some (f b) =
            rw bs (find-update_self (wallet_is key) f db.balances (λ _ h. h) there) in
          (
            record {
              credits = rw here refl;
              block = rw here (ground arith);
              before = ground arith;
              after = ground arith;
            },
            ground arith,
            ground arith,
          )
    ]

-- A sync that was applied, and the row that it had read.
record Applied (key : Text) (added synced_to : ℕ) (rollback : Bool) (r : SyncDepositsResult)
    (db now_db db' : Db) : Type 0 where
  synced : Synced key (find_balance key db) added r db'
  forward : rollback ≡ false → block_of (find_balance key db) ≤ r.last_synced_block
  current : block_of (find_balance key now_db) ≡ block_of (find_balance key db)
  reached : rollback ≡ false → synced_to ≤ r.last_synced_block

sync_locked-Applied :
    (env : Env) (between : Db → Db) (key : Text) (added block : ℕ) (options : SyncDepositsOptions)
    (db : Db) {r : SyncDepositsResult} {db' : Db}
    → sync_locked env between key added block options db ≡ (ok r, db')
    → r.applied ≡ true
    → Applied key added block options.allow_last_synced_block_rollback r db (between db) db'
unfolding sync_locked next_synced_block
sync_locked-Applied env between key added block options db {r} {db'} e done =
    elim (Option-cases (find_balance key db)) [
      | inl fresh ↦
          let ran : transaction (sync_created env key added block) (between db) ≡ (ok r, db') =
            ground arith in
          let (x, stamp, vacant) =
            sync_created-Synced env key added block (between db)
              (transaction-eq-ok (sync_created env key added block) (between db) ran) done in
          record {
            synced = rw fresh x;
            forward = λ _. rw fresh (ground arith);
            current = rw fresh vacant;
            reached = λ _. ground arith;
          }
      | inr (b, there) ↦
          let rollback = options.allow_last_synced_block_rollback in
          let ran : transaction (sync_existing env key added block rollback b) (between db)
              ≡ (ok r, db') =
            ground arith in
          let (x, stamp, current) =
            sync_existing-Synced env key added block rollback b (between db)
              (transaction-eq-ok (sync_existing env key added block rollback b) (between db) ran)
              done in
          record {
            synced = rw there x;
            forward = λ strict. rw there (ground arith);
            current = rw there current;
            reached = λ strict. ground arith;
          }
    ]

sync_deposits-Applied :
    (env : Env) (between : Db → Db) (user : Text) (wei price block : ℤ)
    (options : SyncDepositsOptions) (db : Db) {r : SyncDepositsResult} {db' : Db}
    → sync_deposits env between user wei price block options db ≡ (ok r, db')
    → r.applied ≡ true
    → (key : Text) × (normalize_address_key env user ≡ ok key)
      × Applied key
          (pos_part wei / pos_part price)
          (pos_part block)
          options.allow_last_synced_block_rollback
          r
          db
          (between db)
          db'
unfolding sync_deposits
sync_deposits-Applied env between user wei price block options db {r} {db'} e done =
    elim (Result-cases (normalize_address_key env user)) [
      | inl (bad, unknown) ↦ absurd (ground arith)
      | inr (key, known) ↦ (
        key,
        known,
        sync_locked-Applied env between key (pos_part wei / pos_part price) (pos_part block) options
            db {r = r} {db' = db'} (ground arith) done,
      )
    ]

-- A sync that answers `applied` leaves in the wallet's row the credits that it read at its start and the
-- deposit's whole credits, rounded down; and the row's last synced block is the one it answers.
pub sync_deposits-Synced :
    (env : Env) (between : Db → Db) (user : Text) (wei price block : ℤ)
    (options : SyncDepositsOptions) (db : Db) {r : SyncDepositsResult} {db' : Db}
    → sync_deposits env between user wei price block options db ≡ (ok r, db')
    → r.applied ≡ true
    → (key : Text) × (normalize_address_key env user ≡ ok key)
      × Synced key (find_balance key db) (pos_part wei / pos_part price) r db'
sync_deposits-Synced env between user wei price block options db e done =
    let (key, known, x) =
      sync_deposits-Applied env between user wei price block options db e done in
    (key, known, x.synced)

-- Without leave to roll back, a sync that answers `applied` never moves a wallet's last synced block
-- back from where it stood at the write, whatever others did since the read, and leaves it at or
-- beyond the block that was synced.
pub sync_deposits-forward :
    (env : Env) (between : Db → Db) (user : Text) (wei price block : ℤ)
    (options : SyncDepositsOptions) (db : Db) {r : SyncDepositsResult} {db' : Db}
    → sync_deposits env between user wei price block options db ≡ (ok r, db')
    → r.applied ≡ true
    → options.allow_last_synced_block_rollback ≡ false
    → (key : Text) × (normalize_address_key env user ≡ ok key)
      × (block_of (find_balance key (between db)) ≤ block_of (find_balance key db'))
      × (pos_part block ≤ block_of (find_balance key db'))
sync_deposits-forward env between user wei price block options db e done strict =
    let (key, known, x) =
      sync_deposits-Applied env between user wei price block options db e done in
    (
      key,
      known,
      rw (x.synced.block, x.current) (x.forward strict),
      rw x.synced.block (x.reached strict),
    )

-- The compare-and-set does not see a debit: if another request takes some of the wallet's credits
-- between the sync's read and its write, and the sync is applied, then those credits are back
-- afterwards, and the row does not have the debited balance and the deposit.
pub sync_deposits-lost_update :
    (env : Env) (between : Db → Db) (user : Text) (wei price block : ℤ)
    (options : SyncDepositsOptions) (db : Db) {key : Text} {charge : ℕ} {r : SyncDepositsResult}
    {db' : Db}
    → normalize_address_key env user ≡ ok key
    → 0 < charge
    → Debits key charge db (between db)
    → sync_deposits env between user wei price block options db ≡ (ok r, db')
    → r.applied ≡ true
    → (credits_of (find_balance key db')
        ≡ credits_of (find_balance key (between db)) + charge + pos_part wei / pos_part price)
      × (credits_of (find_balance key db')
          ≢ credits_of (find_balance key (between db)) + pos_part wei / pos_part price)
sync_deposits-lost_update env between user wei price block options db {key} {charge} {r} {db'} known
      positive d e done =
    let (key', known', x) =
      sync_deposits-Applied env between user wei price block options db e done in
    let same : key' ≡ key = ground (arith, known, known') in
    let total : credits_of (find_balance key db')
        ≡ credits_of (find_balance key db) + pos_part wei / pos_part price =
      subst
        (λ k.
          credits_of (find_balance k db')
          ≡ credits_of (find_balance k db) + pos_part wei / pos_part price)
        same x.synced.credits in
    (
      ground (arith, d.after, d.funded, d.covered, total),
      λ bad. ground (arith, d.after, d.funded, d.covered, total),
    )
