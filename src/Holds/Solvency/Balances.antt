-- ===== src/Holds/Solvency/Balances.antt =====
-- lib/db.ts, updateUserCredits, addUserCredits and consumeUserCredits, for the invariant.
use ghost_protocol.Prelude.{
  ap, sym, ◌∙◌, refl, ℕ, ◌-◌, ◌≡◌, inl, inr, not, Bool, none, ◌∷◌, Text, text_eq_iff, find, update,
  ltb, leb, arith, Bool-cases, Option-cases, if-keeps,
}
use ghost_protocol.Prelude.Int.{ℤ, is_positive, pos_part}
use ghost_protocol.Store.{
  CreditBalance, Db, ok, M, ◌>>=◌, get, >>=-eq-ok, transaction-keeps, on_ok-keeps,
}
use ghost_protocol.Env.{Env}
use ghost_protocol.Credits.{
  normalize_address_key, to_prisma_int, find_balance, wallet_is, update_balance,
  write_credit_ledger,
}
use ghost_protocol.Credits.Frame.{Frames, >>-Frames, return-Frames, write_credit_ledger-Frames}
use ghost_protocol.Credits.Balances.{
  held_of, credits_of, new_balance, upsert_balance, set_body, update_user_credits, add_body,
  add_user_credits, debit_if_covered, ConsumeUserCreditsOptions, consume_covered, consume_call,
  consume_user_credits,
}
use ghost_protocol.Holds.Solvency.{find_balance-update}
use ghost_protocol.Holds.Solvency.Sweep.{IsSound, LeavesSound}

pub record SameHeld (db db' : Db) : Type 0 where
  pub held : (w : Text) → held_of (find_balance w db') ≡ held_of (find_balance w db)
  pub holds : db'.holds ≡ db.holds

pub SameHeld-IsSound : {db db' : Db} → SameHeld db db' → IsSound db → IsSound db'
SameHeld-IsSound {db} {db'} x s = record {
  solvent = λ w. rw (x.held w, x.holds) (s.solvent w);
  distinct = rw x.holds s.distinct;
  single = rw x.holds s.single;
}

pub ≡-SameHeld : {db db' : Db} → db ≡ db' → SameHeld db db'
≡-SameHeld e = record {
  held = λ w. ap (λ d. held_of (find_balance w d)) (sym e);
  holds = ap (λ d. d.holds) (sym e);
}

-- A change of rows that keeps their keys and what they hold.
pub record KeepsHeld (f : CreditBalance → CreditBalance) : Type 0 where
  pub wallet : (b : CreditBalance) → (f b).wallet_address ≡ b.wallet_address
  pub held : (b : CreditBalance) → (f b).held_credits ≡ b.held_credits

pub update-SameHeld :
    (key : Text) (f : CreditBalance → CreditBalance) (db : Db)
    → KeepsHeld f
    → SameHeld db (record db { balances = update (wallet_is key) f db.balances })
update-SameHeld key f db x = record {
  held = λ w.
      rw (find_balance-update w key f db.balances x.wallet)
        (elim (Option-cases (find (wallet_is w) db.balances)) [
          | inl e ↦ ground arith
          | inr (b, e) ↦ ground (arith, x.held b)
        ]);
  holds = refl;
}

pub create-SameHeld :
    (key : Text) (credits block : ℕ) (db : Db)
    → find_balance key db ≡ none
    → SameHeld db (record db { balances = new_balance key credits block ∷ db.balances })
unfolding find
create-SameHeld key credits block db e = record {
  held = λ w. ground (arith, text_eq_iff key w);
  holds = refl;
}

-- A body that leaves what is held alone.
pub record Untouched {A : Type 0} (m : M A) : Type 0 where
  pub same : (db : Db) (a : A) (db' : Db) → m db ≡ ok (a, db') → SameHeld db db'

pub Frames-Untouched : {A : Type 0} {m : M A} → Frames m → Untouched m
Frames-Untouched x = record {
  same = λ db a db' e.
      let s = x.same db a db' e in
      record { held = λ w. ap (λ bs. held_of (find (wallet_is w) bs)) s.balances; holds = s.holds };
}

pub >>=-Untouched :
    {A B : Type 0} {m : M A} {f : A → M B}
    → Untouched m
    → ((a : A) → Untouched (f a))
    → Untouched (m >>= f)
>>=-Untouched {m = m} {f = f} x y = record {
  same = λ db b db' e.
      let (a, db₁, first, rest) = >>=-eq-ok m f db e in
      let s = x.same db a db₁ first in
      let t = (y a).same db₁ b db' rest in
      record { held = λ w. t.held w ∙ s.held w; holds = t.holds ∙ s.holds };
}

pub upsert_balance-Untouched :
    (key : Text) (initial : ℕ) (f : CreditBalance → CreditBalance)
    → KeepsHeld f
    → Untouched (upsert_balance key initial f)
unfolding upsert_balance update_balance
upsert_balance-Untouched key initial f x = record {
  same = λ db a db' e. elim (Option-cases (find_balance key db)) [
    | inl fresh ↦
        let made : record db { balances = new_balance key initial 0 ∷ db.balances } ≡ db' =
          ground arith in
        rw made at (create-SameHeld key initial 0 db fresh)
    | inr (b, there) ↦
        let made : record db { balances = update (wallet_is key) f db.balances } ≡ db' =
          ground arith in
        rw made at (update-SameHeld key f db x)
  ];
}

get-Untouched : Untouched get
get-Untouched = record { same = λ db a db' e. ≡-SameHeld (ground arith) }

set_body-Untouched : (env : Env) (key : Text) (credits : ℕ) → Untouched (set_body env key credits)
unfolding set_body
set_body-Untouched env key credits = >>=-Untouched get-Untouched λ db.
    >>=-Untouched
      (upsert_balance-Untouched key credits _ (record { wallet = λ b. refl; held = λ b. refl }))
      λ b. Frames-Untouched (>>-Frames (write_credit_ledger-Frames env _) (return-Frames b))

add_body-Untouched :
    (env : Env) (key : Text) (amount increment : ℕ) → Untouched (add_body env key amount increment)
unfolding add_body
add_body-Untouched env key amount increment =
    >>=-Untouched
      (upsert_balance-Untouched key increment _ (record { wallet = λ b. refl; held = λ b. refl }))
      λ b. Frames-Untouched (>>-Frames (write_credit_ledger-Frames env _) (return-Frames _))

pub debit_if_covered-Untouched : (key : Text) (charge : ℕ) → Untouched (debit_if_covered key charge)
unfolding debit_if_covered
debit_if_covered-Untouched key charge = record {
  same = λ db a db' e. elim (Option-cases (find_balance key db)) [
    | inl missing ↦ ≡-SameHeld (ground arith)
    | inr (b, there) ↦ elim (Bool-cases (leb charge b.credits)) [
      | inl enough ↦
          let spend : CreditBalance → CreditBalance =
            λ c. record c { credits = c.credits - charge } in
          let made : record db { balances = update (wallet_is key) spend db.balances } ≡ db' =
            ground arith in
          rw made at
            (update-SameHeld key spend db (record { wallet = λ b. refl; held = λ b. refl }))
      | inr short ↦ ≡-SameHeld (ground arith)
    ]
  ];
}

consume_covered-Untouched :
    (env : Env) (key : Text) (cost : ℕ) (options : ConsumeUserCreditsOptions) (before : ℕ)
    (done : Bool)
    → Untouched (consume_covered env key cost options before done)
unfolding consume_covered write_credit_ledger
consume_covered-Untouched env key cost options before done =
    Frames-Untouched (record { same = λ db a db' e. ground arith })

pub update_user_credits-IsSound :
    (env : Env) (user : Text) (amount : ℤ) (db : Db)
    → IsSound db
    → LeavesSound (update_user_credits env user amount db)
unfolding update_user_credits
update_user_credits-IsSound env user amount db s =
    on_ok-keeps LeavesSound (normalize_address_key env user) db _ (λ _. s)
      λ key.
        on_ok-keeps LeavesSound (to_prisma_int amount) db _ (λ _. s)
          λ credits.
            transaction-keeps IsSound (set_body env key credits) db s
              (λ a db' e. SameHeld-IsSound ((set_body-Untouched env key credits).same db a db' e) s)

pub add_user_credits-IsSound :
    (env : Env) (user : Text) (amount : ℤ) (db : Db)
    → IsSound db
    → LeavesSound (add_user_credits env user amount db)
unfolding add_user_credits
add_user_credits-IsSound env user amount db s = if-keeps LeavesSound (not (is_positive amount)) s (
    on_ok-keeps LeavesSound (normalize_address_key env user) db _ (λ _. s)
      λ key.
        on_ok-keeps LeavesSound (to_prisma_int amount) db _ (λ _. s)
          λ increment.
            transaction-keeps IsSound (add_body env key (pos_part amount) increment) db s
              (λ a db' e.
                SameHeld-IsSound
                  ((add_body-Untouched env key (pos_part amount) increment).same db a db' e) s))

consume_call-IsSound :
    (env : Env) (between : Db → Db) (key : Text) (cost charge : ℕ)
    (options : ConsumeUserCreditsOptions) (db : Db)
    → IsSound db
    → IsSound (between db)
    → LeavesSound (consume_call env between key cost charge options db)
unfolding consume_call
consume_call-IsSound env between key cost charge options db s t =
    let before = credits_of (find_balance key db) in
    let body = debit_if_covered key charge >>= consume_covered env key cost options before in
    if-keeps LeavesSound (ltb before cost) s (
      transaction-keeps IsSound body (between db) t (λ a db' e.
        SameHeld-IsSound
          ((>>=-Untouched (debit_if_covered-Untouched key charge)
              (consume_covered-Untouched env key cost options before)).same
            (between db) a db' e)
          t))

pub consume_user_credits-IsSound :
    (env : Env) (between : Db → Db) (user : Text) (cost : ℤ) (options : ConsumeUserCreditsOptions)
    (db : Db)
    → IsSound db
    → IsSound (between db)
    → LeavesSound (consume_user_credits env between user cost options db)
unfolding consume_user_credits
consume_user_credits-IsSound env between user cost options db s t =
    if-keeps LeavesSound (not (is_positive cost)) s (
      on_ok-keeps LeavesSound (normalize_address_key env user) db _ (λ _. s)
        λ key.
          on_ok-keeps LeavesSound (to_prisma_int cost) db _ (λ _. s)
            λ charge. consume_call-IsSound env between key (pos_part cost) charge options db s t)
