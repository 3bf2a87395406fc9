-- ===== src/Holds/Solvency/Gate.antt =====
-- lib/db.ts, consumeUserCreditsForGate, for the invariant.
use ghost_protocol.Prelude.{
  ℕ, inl, inr, not, Bool, true, false, Option, some, none, Text, ltb, is_empty, arith, Option-cases,
  if-keeps,
}
use ghost_protocol.Prelude.Int.{ℤ, is_positive, pos_part}
use ghost_protocol.Store.{Db, ◌>>=◌, transaction-keeps, on_ok-keeps, Result-cases}
use ghost_protocol.Env.{Env}
use ghost_protocol.Credits.{normalize_address_key, to_prisma_int, find_balance}
use ghost_protocol.Credits.Frame.{
  Frames, frame_rules, >>=-Frames, >>-Frames, return-Frames, write_credit_ledger-Frames,
  persist_access_nonce-Frames,
}
use ghost_protocol.Credits.Balances.{credits_of, debit_if_covered}
use ghost_protocol.Credits.Gate.{
  ConsumeGateCreditsOptions, gate_earning, earning_if_owned, book_gate_debit, book_or_replay,
  as_gate_replay, gate_nonce, gate_debited, gate_consumed, gate_call, consume_user_credits_for_gate,
}
use ghost_protocol.Holds.Solvency.Sweep.{IsSound, LeavesSound}
use ghost_protocol.Holds.Solvency.Balances.{
  SameHeld-IsSound, ≡-SameHeld, Untouched, >>=-Untouched, Frames-Untouched,
  debit_if_covered-Untouched,
}

gate_earning-Frames :
    (env : Env) (id : Text) (now : ℕ) (key : Text) (cost : ℕ) (options : ConsumeGateCreditsOptions)
    (owner : Text)
    → Frames (gate_earning env id now key cost options owner)
unfolding gate_earning
gate_earning-Frames env id now key cost options owner = search frame_rules depth 12

earning_if_owned-Frames :
    (env : Env) (id : Text) (now : ℕ) (key : Text) (cost : ℕ) (options : ConsumeGateCreditsOptions)
    (owner : Option Text)
    → Frames (earning_if_owned env id now key cost options owner)
unfolding earning_if_owned
earning_if_owned-Frames env id now key cost options none = return-Frames tt
earning_if_owned-Frames env id now key cost options (some owner) =
    if-keeps Frames (is_empty owner) (return-Frames tt)
      (gate_earning-Frames env id now key cost options owner)

pub book_gate_debit-Frames :
    (env : Env) (id : Text) (now : ℕ) (key : Text) (cost : ℕ) (options : ConsumeGateCreditsOptions)
    (before after : ℕ)
    → Frames (book_gate_debit env id now key cost options before after)
unfolding book_gate_debit
book_gate_debit-Frames env id now key cost options before after =
    >>-Frames (write_credit_ledger-Frames env _)
      (earning_if_owned-Frames env id now key cost options options.merchant_owner_address)

book_or_replay-Frames :
    (env : Env) (id : Text) (now : ℕ) (key : Text) (cost : ℕ) (options : ConsumeGateCreditsOptions)
    (before after : ℕ)
    → Frames (book_or_replay env id now key cost options before after)
unfolding book_or_replay as_gate_replay
book_or_replay-Frames env id now key cost options before after = record {
  same = λ db a db' e.
      elim (Result-cases (book_gate_debit env id now key cost options before after db)) [
        | inl (x, failed) ↦ absurd (ground arith)
        | inr (r, done) ↦
            (book_gate_debit-Frames env id now key cost options before after).same db a db'
              (ground arith)
      ];
}

pub gate_debited-Frames :
    (env : Env) (id : Text) (now : ℕ) (key : Text) (cost : ℕ) (options : ConsumeGateCreditsOptions)
    (before after : ℕ)
    → Frames (gate_debited env id now key cost options before after)
unfolding gate_debited
gate_debited-Frames env id now key cost options before after =
    >>=-Frames
      (persist_access_nonce-Frames env (gate_nonce key options) options.enforce_nonce_uniqueness)
      λ a.
        >>-Frames (book_or_replay-Frames env id now key cost options before after) (return-Frames _)

pub gate_consumed-Untouched :
    (env : Env) (id : Text) (now : ℕ) (key : Text) (cost : ℕ) (options : ConsumeGateCreditsOptions)
    (before : ℕ) (done : Bool)
    → Untouched (gate_consumed env id now key cost options before done)
unfolding gate_consumed
gate_consumed-Untouched env id now key cost options before false = record {
  same = λ db a db' e. ≡-SameHeld (ground arith);
}
gate_consumed-Untouched env id now key cost options before true = record {
  same = λ db a db' e. elim (Option-cases (find_balance key db)) [
    | inl missing ↦ ≡-SameHeld (ground arith)
    | inr (b, there) ↦
        (Frames-Untouched (gate_debited-Frames env id now key cost options before b.credits)).same
          db a db' (ground arith)
  ];
}

gate_call-IsSound :
    (env : Env) (between : Db → Db) (id : Text) (now : ℕ) (key : Text) (cost charge : ℕ)
    (options : ConsumeGateCreditsOptions) (db : Db)
    → IsSound db
    → IsSound (between db)
    → LeavesSound (gate_call env between id now key cost charge options db)
unfolding gate_call
gate_call-IsSound env between id now key cost charge options db s t =
    let before = credits_of (find_balance key db) in
    let body = debit_if_covered key charge >>= gate_consumed env id now key cost options before in
    if-keeps LeavesSound (ltb before cost) s (
      transaction-keeps IsSound body (between db) t (λ a db' e.
        SameHeld-IsSound
          ((>>=-Untouched (debit_if_covered-Untouched key charge)
              (gate_consumed-Untouched env id now key cost options before)).same
            (between db) a db' e)
          t))

pub consume_user_credits_for_gate-IsSound :
    (env : Env) (between : Db → Db) (id : Text) (now : ℕ) (user : Text) (cost : ℤ)
    (options : ConsumeGateCreditsOptions) (db : Db)
    → IsSound db
    → IsSound (between db)
    → LeavesSound (consume_user_credits_for_gate env between id now user cost options db)
unfolding consume_user_credits_for_gate
consume_user_credits_for_gate-IsSound env between id now user cost options db s t =
    if-keeps LeavesSound (not (is_positive cost)) s (
      on_ok-keeps LeavesSound (normalize_address_key env user) db _ (λ _. s)
        λ key.
          on_ok-keeps LeavesSound (to_prisma_int cost) db _ (λ _. s)
            λ charge.
              gate_call-IsSound env between id now key (pos_part cost) charge options db s t)
