-- ===== src/Holds/Solvency/Sync.antt =====
-- lib/db.ts, syncDeposits, for the invariant: its two paths.
use ghost_protocol.Prelude.{
  ℕ, ◌+◌, ◌/◌, ◌≡◌, refl, inl, inr, not, Bool, Option, some, none, Text, arith, Bool-cases,
  Option-cases, if-keeps, update, is_some, ◌&&◌, ◌==◌, ◌∷◌,
}
use ghost_protocol.Prelude.Int.{ℤ, is_positive, is_negative, pos_part}
use ghost_protocol.Store.{CreditBalance, Db, ok, transaction, transaction-keeps, on_ok-keeps}
use ghost_protocol.Env.{Env}
use ghost_protocol.Credits.{
  normalize_address_key, to_prisma_int, find_balance, wallet_is, write_credit_ledger,
}
use ghost_protocol.Credits.Balances.{new_balance}
use ghost_protocol.Credits.Sync.{
  SyncDepositsOptions, SyncDepositsResult, block_of, log_sync, sync_created, next_synced_block,
  sync_existing, expected_block, expected_is_negative, sync_locked, sync_deposits,
}
use ghost_protocol.Holds.Solvency.Sweep.{IsSound, LeavesSound}
use ghost_protocol.Holds.Solvency.Balances.{
  SameHeld, SameHeld-IsSound, ≡-SameHeld, create-SameHeld, update-SameHeld,
}

sync_created-eq :
    (env : Env) (key : Text) (added block : ℕ) (db : Db) {r : SyncDepositsResult} {db' : Db}
    → sync_created env key added block db ≡ ok (r, db')
    → SameHeld db db'
unfolding sync_created log_sync write_credit_ledger to_prisma_int
sync_created-eq env key added block db {db' = db'} e = elim (Option-cases (find_balance key db)) [
  | inr (b, there) ↦ ≡-SameHeld (ground arith)
  | inl fresh ↦
      let bs : db'.balances ≡ new_balance key added block ∷ db.balances = ground arith in
      let hs : db'.holds ≡ db.holds = ground arith in
      let s = create-SameHeld key added block db fresh in
      record { held = λ w. rw bs (s.held w); holds = hs }
]

sync_existing-eq :
    (env : Env) (key : Text) (added synced_to : ℕ) (rollback : Bool) (existing : CreditBalance)
    (db : Db) {r : SyncDepositsResult} {db' : Db}
    → sync_existing env key added synced_to rollback existing db ≡ ok (r, db')
    → SameHeld db db'
unfolding sync_existing log_sync write_credit_ledger to_prisma_int
sync_existing-eq env key added synced_to rollback existing db {db' = db'} e =
    elim (Bool-cases (
      is_some (find_balance key db)
      && block_of (find_balance key db) == existing.last_synced_block)) [
        | inr stale ↦ ≡-SameHeld (ground arith)
        | inl current ↦
            let next = next_synced_block rollback synced_to existing.last_synced_block in
            let f : CreditBalance → CreditBalance =
              λ b. record b { credits = existing.credits + added; last_synced_block = next } in
            let bs : db'.balances ≡ update (wallet_is key) f db.balances = ground arith in
            let hs : db'.holds ≡ db.holds = ground arith in
            let s = update-SameHeld key f db (record { wallet = λ b. refl; held = λ b. refl }) in
            record { held = λ w. rw bs (s.held w); holds = hs }
      ]

sync_locked-IsSound :
    (env : Env) (between : Db → Db) (key : Text) (added block : ℕ) (options : SyncDepositsOptions)
    (db : Db)
    → IsSound db
    → IsSound (between db)
    → LeavesSound (sync_locked env between key added block options db)
unfolding sync_locked
sync_locked-IsSound env between key added block options db s t =
    if-keeps LeavesSound
      (not (
        block_of (find_balance key db)
        == expected_block options.expected_last_synced_block (block_of (find_balance key db))))
      s (go (find_balance key db))
  where
    go :
        (existing : Option CreditBalance)
        → LeavesSound {A = SyncDepositsResult} (elim existing [
          | none ↦ transaction (sync_created env key added block) (between db)
          | some b ↦
              transaction
                (sync_existing env key added block options.allow_last_synced_block_rollback b)
                (between db)
        ])
    go none =
        transaction-keeps IsSound (sync_created env key added block) (between db) t
          (λ r db' e. SameHeld-IsSound (sync_created-eq env key added block (between db) e) t)
    go (some b) =
        transaction-keeps IsSound
          (sync_existing env key added block options.allow_last_synced_block_rollback b)
          (between db) t
          (λ r db' e.
            SameHeld-IsSound
              (sync_existing-eq env key added block options.allow_last_synced_block_rollback b
                (between db) e)
              t)

pub sync_deposits-IsSound :
    (env : Env) (between : Db → Db) (user : Text) (wei price block : ℤ)
    (options : SyncDepositsOptions) (db : Db)
    → IsSound db
    → IsSound (between db)
    → LeavesSound (sync_deposits env between user wei price block options db)
unfolding sync_deposits
sync_deposits-IsSound env between user wei price block options db s t =
    if-keeps LeavesSound (not (is_positive price)) s (
      if-keeps LeavesSound (is_negative block) s (
        if-keeps LeavesSound (expected_is_negative options.expected_last_synced_block) s (
          on_ok-keeps LeavesSound (normalize_address_key env user) db _ (λ _. s)
            λ key.
              sync_locked-IsSound env between key (pos_part wei / pos_part price) (pos_part block)
                options db s t)))
