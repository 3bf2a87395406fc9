-- ===== src/Credits/Balances/Overdraft.antt =====
-- lib/db.ts, consumeUserCredits: the debit that a movement stands for, in the balance rows before
-- and after its write.
use mathlib.Core.Path.{subst}
use ghost_protocol.Prelude.{
  ap, sym, ℕ, ◌-◌, ◌≤◌, ◌≡◌, refl, inl, inr, Bool, true, false, some, some-eq, Text, text_eq,
  text_eq_iff, update, find-update_self, find-update_ne, arith, Option-cases,
}
use ghost_protocol.Prelude.Int.{ℤ, pos, negsuc}
use ghost_protocol.Store.{
  CreditBalance, Db, ok, ◌>>=◌, ◌>>◌, return, >>=-eq-ok, ok-db, ok-value, Result-cases,
}
use ghost_protocol.Env.{Env}
use ghost_protocol.Credits.{
  normalize_address_key, to_prisma_int, find_balance, wallet_is, LedgerWrite, write_credit_ledger,
}
use ghost_protocol.Credits.Frame.{SameMoney, write_credit_ledger-SameMoney}
use ghost_protocol.Credits.Balances.{
  credits_of, Movement, debit_if_covered, ConsumeUserCreditsOptions, consumption_entry,
  consume_covered, consume_call, consume_user_credits,
}

-- One wallet has paid, and no other row has changed.
pub record Debits (key : Text) (charge : ℕ) (db db' : Db) : Type 0 where
  pub row : CreditBalance
  pub funded : find_balance key db ≡ some row
  pub covered : charge ≤ row.credits
  pub after : find_balance key db' ≡ some (record row { credits = row.credits - charge })
  pub others : (w : Text) → text_eq key w ≡ false → find_balance w db' ≡ find_balance w db

pub debit_if_covered-Debits :
    (key : Text) (charge : ℕ) (db : Db) {db' : Db}
    → debit_if_covered key charge db ≡ ok (true, db')
    → Debits key charge db db'
unfolding debit_if_covered
debit_if_covered-Debits key charge db {db'} e = elim (Option-cases (find_balance key db)) [
  | inl missing ↦ absurd (ground arith)
  | inr (b, funded) ↦
      let spend : CreditBalance → CreditBalance = λ c. record c { credits = c.credits - charge } in
      let bs : db'.balances ≡ update (wallet_is key) spend db.balances = ground arith in
      record {
        row = b;
        funded = funded;
        covered = ground arith;
        after = rw bs (find-update_self (wallet_is key) spend db.balances (λ _ e. e) funded);
        others = λ w apart. rw bs (
            find-update_ne (wallet_is key) (wallet_is w) spend db.balances
              (λ c hit. other w apart c hit) (λ c hit. other w apart c hit));
      }
]
  where
    other :
        (w : Text)
        → text_eq key w ≡ false
        → (c : CreditBalance) → wallet_is key c ≡ true
        → wallet_is w c ≡ false
    other w apart c hit = rw ((text_eq_iff c.wallet_address key).0 hit) apart

pub SameMoney-Debits :
    {key : Text} {charge : ℕ} {db db₁ db' : Db}
    → Debits key charge db db₁
    → SameMoney db₁ db'
    → Debits key charge db db'
SameMoney-Debits x same = record {
  row = x.row;
  funded = x.funded;
  covered = x.covered;
  after = rw same.balances x.after;
  others = λ w apart. rw same.balances (x.others w apart);
}

-- A ledger entry and an answer.
booked-eq :
    (env : Env) (input : LedgerWrite) (n : Movement) (db : Db) {m : Movement} {db' : Db}
    → (write_credit_ledger env input >> return (some n)) db ≡ ok (some m, db')
    → SameMoney db db' × (n ≡ m)
booked-eq env input n db {m} {db'} e =
    let (_, db₁, booked, last) =
      >>=-eq-ok (write_credit_ledger env input) (λ _. return (some n)) db e in
    (
      subst (SameMoney db) (ok-db last) (write_credit_ledger-SameMoney env input db booked),
      some-eq (ok-value last),
    )

consume_covered-eq :
    (env : Env) (key : Text) (cost : ℕ) (options : ConsumeUserCreditsOptions) (before charge : ℕ)
    (done : Bool) (db db₁ : Db) {m : Movement} {db' : Db}
    → debit_if_covered key charge db ≡ ok (done, db₁)
    → consume_covered env key cost options before done db₁ ≡ ok (some m, db')
    → Debits key charge db db' × (m.after ≡ credits_of (find_balance key db'))
unfolding consume_covered
consume_covered-eq env key cost options before charge false db db₁ d e = absurd (ground arith)
consume_covered-eq env key cost options before charge true db db₁ {m} {db'} d e =
    let x = debit_if_covered-Debits key charge db d in
    let n : Movement = record { before = before; after = x.row.credits - charge } in
    let (same, value) =
      booked-eq env (consumption_entry key cost options n) n db₁
        (rw (x.after, consume_covered) at e) in
    (SameMoney-Debits x same, rw (same.balances, x.after) (ap (λ k. k.after) (sym value)))

-- What a call that consumed credits has done: `paid` is in the database that the others left.
pub record Consumed (env : Env) (user : Text) (cost : ℤ) (m : Movement) (db db' : Db) : Type 0 where
  pub key : Text
  pub charge : ℕ
  pub wallet : normalize_address_key env user ≡ ok key
  pub priced : cost ≡ pos charge
  pub paid : Debits key charge db db'
  pub answer : m.after ≡ credits_of (find_balance key db')

consume_call-eq :
    (env : Env) (between : Db → Db) (key : Text) (cost charge : ℕ)
    (options : ConsumeUserCreditsOptions) (db : Db) {m : Movement} {db' : Db}
    → consume_call env between key cost charge options db ≡ (ok (some m), db')
    → Debits key charge (between db) db' × (m.after ≡ credits_of (find_balance key db'))
unfolding consume_call
consume_call-eq env between key cost charge options db {m} {db'} e =
    let before = credits_of (find_balance key db) in
    let body = debit_if_covered key charge >>= consume_covered env key cost options before in
    elim (Result-cases (body (between db))) [
      | inl (x, failed) ↦ absurd (ground arith)
      | inr ((r, db₂), ran) ↦
          let here : body (between db) ≡ ok (some m, db') = ground arith in
          let (done, db₁, d, k) =
            >>=-eq-ok (debit_if_covered key charge) (consume_covered env key cost options before)
              (between db) here in
          consume_covered-eq env key cost options before charge done (between db) db₁ d k
    ]

-- If consumeUserCredits answers with a movement, then the wallet had the whole cost when the write
-- happened, after anything that other requests did since the read; the write took exactly the cost from
-- that wallet and left every other; and the answer's balance is the row's.
pub consume_user_credits-Consumed :
    (env : Env) (between : Db → Db) (user : Text) (cost : ℤ) (options : ConsumeUserCreditsOptions)
    (db : Db) {m : Movement} {db' : Db}
    → consume_user_credits env between user cost options db ≡ (ok (some m), db')
    → Consumed env user cost m (between db) db'
unfolding consume_user_credits to_prisma_int
consume_user_credits-Consumed env between user (negsuc n) options db e = absurd (ground arith)
consume_user_credits-Consumed env between user (pos n) options db {m} {db'} e =
    elim (Result-cases (normalize_address_key env user)) [
      | inl (x, bad) ↦ absurd (ground arith)
      | inr (key, known) ↦
          let (paid, answer) =
            consume_call-eq env between key n n options db {m = m} {db' = db'} (ground arith) in
          record {
            key = key;
            charge = n;
            wallet = known;
            priced = refl;
            paid = paid;
            answer = answer;
          }
    ]
