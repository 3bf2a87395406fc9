-- ===== src/Credits/Gate/Outcomes.antt =====
-- lib/db.ts, consumeUserCreditsForGate: its answers `ok` and `replay`, in terms of the balance rows
-- and the nonces.
use ghost_protocol.Prelude.{
  ◌∙◌, ℕ, ◌-◌, ◌≤◌, ◌<◌, ◌≡◌, refl, inl, inr, Bool, true, false, some, Text, find, update, is_some,
  ltb, arith,
}
use ghost_protocol.Prelude.Int.{pos, is_positive}
use ghost_protocol.Store.{
  CreditBalance, Db, Result, ok, err, access_nonce_replay, ◌>>=◌, return, >>=-eq-ok, >>=-ok,
  >>=-err, ok-value, Result-cases, transaction,
}
use ghost_protocol.Env.{Env}
use ghost_protocol.Credits.{
  max_prisma_int, normalize_address_key, to_prisma_int, find_balance, wallet_is, same_nonce,
  persist_access_nonce,
}
use ghost_protocol.Credits.Balances.{credits_of, debit_if_covered}
use ghost_protocol.Credits.Balances.Overdraft.{Debits, debit_if_covered-Debits, SameMoney-Debits}
use ghost_protocol.Holds.Solvency.Gate.{gate_debited-Frames}
use ghost_protocol.Credits.Gate.{
  ConsumeGateCreditsOptions, ConsumeGateCreditsResult, accepted, replay, gate_nonce, book_or_replay,
  gate_debited, gate_consumed, replay_or_rethrow, gate_call, consume_user_credits_for_gate,
}

-- The nonce of a request that has been spent.
abbrev pub IsSpent : Text → ConsumeGateCreditsOptions → Db → Type 0
IsSpent key options db = is_some (find (same_nonce (gate_nonce key options)) db.nonces) ≡ true

gate_debited-spent :
    (env : Env) (id : Text) (now : ℕ) (key : Text) (cost : ℕ) (options : ConsumeGateCreditsOptions)
    (before after : ℕ) (db : Db)
    → env.gate_nonce_store_enabled ≡ true
    → options.enforce_nonce_uniqueness ≡ true
    → IsSpent key options db
    → gate_debited env id now key cost options before after db ≡ err access_nonce_replay
unfolding gate_debited persist_access_nonce
gate_debited-spent env id now key cost options before after db enabled enforced spent =
    >>=-err (persist_access_nonce env (gate_nonce key options) options.enforce_nonce_uniqueness) _
      db (ground arith)

-- A wallet that covers the charge, debited.
debit_if_covered-eq :
    (key : Text) (charge : ℕ) (db : Db) {b : CreditBalance}
    → find_balance key db ≡ some b
    → charge ≤ b.credits
    → (db' : Db) × (debit_if_covered key charge db ≡ ok (true, db')) × (db'.nonces ≡ db.nonces)
unfolding debit_if_covered
debit_if_covered-eq key charge db {b} funded covered =
    let spend : CreditBalance → CreditBalance = λ c. record c { credits = c.credits - charge } in
    (record db { balances = update (wallet_is key) spend db.balances }, ground arith, refl)

gate_body-spent :
    (env : Env) (id : Text) (now : ℕ) (key : Text) (cost charge : ℕ)
    (options : ConsumeGateCreditsOptions) (before : ℕ) (db : Db) {b : CreditBalance}
    → env.gate_nonce_store_enabled ≡ true
    → options.enforce_nonce_uniqueness ≡ true
    → IsSpent key options db
    → find_balance key db ≡ some b
    → charge ≤ b.credits
    → (debit_if_covered key charge >>= gate_consumed env id now key cost options before) db
      ≡ err access_nonce_replay
unfolding gate_consumed
gate_body-spent env id now key cost charge options before db enabled enforced spent funded covered =
    let (db₁, debited, nonces) = debit_if_covered-eq key charge db funded covered in
    let x = debit_if_covered-Debits key charge db debited in
    let spent₁ : IsSpent key options db₁ = rw nonces spent in
    >>=-ok (debit_if_covered key charge) (gate_consumed env id now key cost options before) db
      debited
    ∙ rw (gate_consumed, x.after)
        (gate_debited-spent env id now key cost options before (x.row.credits - charge) db₁ enabled
          enforced spent₁)

-- A gate request whose nonce was spent before, with unique nonces enforced, is answered `replay` when
-- its wallet could pay, and leaves the database as the others left it: the debit is rolled back.
pub consume_user_credits_for_gate-replay :
    (env : Env) (between : Db → Db) (id : Text) (now : ℕ) (user : Text) (charge : ℕ)
    (options : ConsumeGateCreditsOptions) (db : Db) {key : Text} {b₀ b : CreditBalance}
    → env.gate_nonce_store_enabled ≡ true
    → options.enforce_nonce_uniqueness ≡ true
    → normalize_address_key env user ≡ ok key
    → 0 < charge
    → charge ≤ max_prisma_int
    → find_balance key db ≡ some b₀
    → charge ≤ b₀.credits
    → find_balance key (between db) ≡ some b
    → charge ≤ b.credits
    → IsSpent key options (between db)
    → consume_user_credits_for_gate env between id now user (pos charge) options db
      ≡ (ok replay, between db)
unfolding consume_user_credits_for_gate gate_call replay_or_rethrow to_prisma_int
consume_user_credits_for_gate-replay env between id now user charge options db {key} {b₀} enabled
      enforced known positive fits read could funded covered spent =
    let here : is_positive (pos charge) ≡ true = ground arith in
    let column : to_prisma_int (pos charge) ≡ ok charge = ground arith in
    let enough : ltb (credits_of (find_balance key db)) charge ≡ false = ground arith in
    let stopped =
      gate_body-spent env id now key charge charge options (credits_of (find_balance key db))
        (between db) enabled enforced spent funded covered in
    rw
      (
        here, consume_user_credits_for_gate, known, column, gate_call, enough, transaction, stopped,
        replay_or_rethrow,
      )
      refl

gate_debited-value :
    (env : Env) (id : Text) (now : ℕ) (key : Text) (cost : ℕ) (options : ConsumeGateCreditsOptions)
    (before after : ℕ) (db : Db) {x y : ℕ} {n : Bool} {db' : Db}
    → gate_debited env id now key cost options before after db ≡ ok (accepted x y n, db')
    → y ≡ after
unfolding gate_debited
gate_debited-value env id now key cost options before after db e =
    let (a, db₁, spent, rest) =
      >>=-eq-ok (persist_access_nonce env (gate_nonce key options) options.enforce_nonce_uniqueness)
        _ db e in
    let (_, db₂, booked, last) =
      >>=-eq-ok (book_or_replay env id now key cost options before after)
        (λ _. return (accepted before after a)) db₁ rest in
    let v = ok-value last in ground arith

gate_consumed-eq :
    (env : Env) (id : Text) (now : ℕ) (key : Text) (cost charge : ℕ)
    (options : ConsumeGateCreditsOptions) (before : ℕ) (done : Bool) (db db₁ : Db) {x y : ℕ}
    {n : Bool} {db' : Db}
    → debit_if_covered key charge db ≡ ok (done, db₁)
    → gate_consumed env id now key cost options before done db₁ ≡ ok (accepted x y n, db')
    → Debits key charge db db' × (y ≡ credits_of (find_balance key db'))
unfolding gate_consumed
gate_consumed-eq env id now key cost charge options before false db db₁ d e = absurd (ground arith)
gate_consumed-eq env id now key cost charge options before true db db₁ {x} {y} {n} {db'} d e =
    let p = debit_if_covered-Debits key charge db d in
    let after = p.row.credits - charge in
    let last : gate_debited env id now key cost options before after db₁
        ≡ ok (accepted x y n, db') =
      rw (p.after, gate_consumed) at e in
    let same =
      (gate_debited-Frames env id now key cost options before after).same db₁ (accepted x y n) db'
        last in
    (
      SameMoney-Debits p same,
      rw (same.balances, p.after)
          (gate_debited-value env id now key cost options before after db₁ last),
    )

replay_or_rethrow-accepted :
    (r : Result ConsumeGateCreditsResult) {x y : ℕ} {n : Bool}
    → replay_or_rethrow r ≡ ok (accepted x y n)
    → r ≡ ok (accepted x y n)
unfolding replay_or_rethrow
replay_or_rethrow-accepted (ok r) e = e
replay_or_rethrow-accepted (err x) e = ground arith

gate_call-eq :
    (env : Env) (between : Db → Db) (id : Text) (now : ℕ) (key : Text) (cost charge : ℕ)
    (options : ConsumeGateCreditsOptions) (db : Db) {x y : ℕ} {n : Bool} {db' : Db}
    → gate_call env between id now key cost charge options db ≡ (ok (accepted x y n), db')
    → Debits key charge (between db) db' × (y ≡ credits_of (find_balance key db'))
unfolding gate_call
gate_call-eq env between id now key cost charge options db {x} {y} {n} {db'} e =
    let before = credits_of (find_balance key db) in
    let body = debit_if_covered key charge >>= gate_consumed env id now key cost options before in
    elim (Result-cases (body (between db))) [
      | inl (bad, failed) ↦
          absurd (ground (arith, replay_or_rethrow-accepted (err bad) {x = x} {y = y} {n = n}))
      | inr ((r, db₂), ran) ↦
          let here : body (between db) ≡ ok (accepted x y n, db') =
            ground (arith, replay_or_rethrow-accepted (ok r) {x = x} {y = y} {n = n}) in
          let (done, db₁, d, k) =
            >>=-eq-ok (debit_if_covered key charge)
              (gate_consumed env id now key cost options before) (between db) here in
          gate_consumed-eq env id now key cost charge options before done (between db) db₁ d k
    ]

-- If a gate request is accepted, the wallet had the whole cost at the write, whatever other requests did
-- since the read; exactly the cost has left that wallet and no other; and the answer names the credits
-- that the row has now.
pub consume_user_credits_for_gate-Debits :
    (env : Env) (between : Db → Db) (id : Text) (now : ℕ) (user : Text) (charge : ℕ)
    (options : ConsumeGateCreditsOptions) (db : Db) {x y : ℕ} {n : Bool} {db' : Db}
    → consume_user_credits_for_gate env between id now user (pos charge) options db
      ≡ (ok (accepted x y n), db')
    → (key : Text) × (normalize_address_key env user ≡ ok key)
      × Debits key charge (between db) db'
      × (y ≡ credits_of (find_balance key db'))
unfolding consume_user_credits_for_gate to_prisma_int
consume_user_credits_for_gate-Debits env between id now user charge options db {x} {y} {n} {db'} e =
    elim (Result-cases (normalize_address_key env user)) [
      | inl (bad, unknown) ↦ absurd (ground arith)
      | inr (key, known) ↦
          let (paid, answer) =
            gate_call-eq env between id now key charge charge options db {x = x} {y = y} {n = n}
              {db' = db'} (ground arith) in
          (key, known, paid, answer)
    ]
