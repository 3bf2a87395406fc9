-- ===== src/Credits/Frame.antt =====
-- The bookkeeping writes of lib/db.ts (ledger, nonces, earnings) as bodies with a frame: the rules
-- by which a body's frame is found.
use ghost_protocol.Prelude.{ap, sym, ◌∙◌, ℕ, ◌≡◌, Bool, Text, arith}
use ghost_protocol.Store.{
  AccessNonce, MerchantEarning, Db, Error, Result, ok, M, ◌>>=◌, ◌>>◌, return, lift, guard,
  >>=-eq-ok, ok-db, lift-db, guard-db,
}
use ghost_protocol.Env.{Env}
use ghost_protocol.Credits.{
  LedgerWrite, write_credit_ledger, persist_access_nonce, insert_earning,
  CreateMerchantEarningInput, create_merchant_earning,
}

pub record SameMoney (db db' : Db) : Type 0 where
  pub balances : db'.balances ≡ db.balances
  pub holds : db'.holds ≡ db.holds
  pub signers : db'.signers ≡ db.signers

pub write_credit_ledger-SameMoney :
    (env : Env) (input : LedgerWrite) (db : Db) {db' : Db}
    → write_credit_ledger env input db ≡ ok (tt, db')
    → SameMoney db db'
unfolding write_credit_ledger
write_credit_ledger-SameMoney env input db h = ground arith

pub persist_access_nonce-SameMoney :
    (env : Env) (nonce : AccessNonce) (enforce : Bool) (db : Db) {accepted : Bool} {db' : Db}
    → persist_access_nonce env nonce enforce db ≡ ok (accepted, db')
    → SameMoney db db'
unfolding persist_access_nonce
persist_access_nonce-SameMoney env nonce enforce db h = ground arith

insert_earning-SameMoney :
    (e : MerchantEarning) (db : Db) {db' : Db}
    → insert_earning e db ≡ ok (tt, db')
    → SameMoney db db'
unfolding insert_earning
insert_earning-SameMoney e db h = ground arith

pub create_merchant_earning-SameMoney :
    (env : Env) (id : Text) (now : ℕ) (input : CreateMerchantEarningInput) (db : Db) {db' : Db}
    → create_merchant_earning env id now input db ≡ ok (tt, db')
    → SameMoney db db'
unfolding create_merchant_earning
create_merchant_earning-SameMoney env id now input db h = ground arith

pub SameMoney-refl : {db db' : Db} → db ≡ db' → SameMoney db db'
SameMoney-refl e = record {
  balances = ap (λ d. d.balances) (sym e);
  holds = ap (λ d. d.holds) (sym e);
  signers = ap (λ d. d.signers) (sym e);
}

pub SameMoney-trans : {a b c : Db} → SameMoney a b → SameMoney b c → SameMoney a c
SameMoney-trans x y = record {
  balances = y.balances ∙ x.balances;
  holds = y.holds ∙ x.holds;
  signers = y.signers ∙ x.signers;
}

-- A body that moves no balance, hold or signer, with a rule for each way to write one.
pub record Frames {A : Type 0} (m : M A) : Type 0 where
  pub same : (db : Db) (a : A) (db' : Db) → m db ≡ ok (a, db') → SameMoney db db'

pub >>=-Frames :
    {A B : Type 0} {m : M A} {f : A → M B} → Frames m → ((a : A) → Frames (f a)) → Frames (m >>= f)
>>=-Frames {m = m} {f = f} x y = record {
  same = λ db b db' e.
      let (a, db₁, first, rest) = >>=-eq-ok m f db e in
      SameMoney-trans (x.same db a db₁ first) ((y a).same db₁ b db' rest);
}

pub >>-Frames : {A B : Type 0} {m : M A} {k : M B} → Frames m → Frames k → Frames (m >> k)
>>-Frames x y = >>=-Frames x (λ _. y)

pub return-Frames : {A : Type 0} (a : A) → Frames (return a)
return-Frames a = record { same = λ db b db' e. SameMoney-refl (ok-db e) }

pub lift-Frames : {A : Type 0} (r : Result A) → Frames (lift r)
lift-Frames r = record { same = λ db b db' e. SameMoney-refl (lift-db r db e) }

pub guard-Frames : (b : Bool) (x : Error) → Frames (guard b x)
guard-Frames b x = record { same = λ db u db' e. SameMoney-refl (guard-db b x db e) }

pub write_credit_ledger-Frames :
    (env : Env) (input : LedgerWrite) → Frames (write_credit_ledger env input)
write_credit_ledger-Frames env input = record {
  same = λ db a db' e. write_credit_ledger-SameMoney env input db e;
}

pub create_merchant_earning-Frames :
    (env : Env) (id : Text) (now : ℕ) (input : CreateMerchantEarningInput)
    → Frames (create_merchant_earning env id now input)
create_merchant_earning-Frames env id now input = record {
  same = λ db a db' e. create_merchant_earning-SameMoney env id now input db e;
}

pub persist_access_nonce-Frames :
    (env : Env) (nonce : AccessNonce) (enforce : Bool)
    → Frames (persist_access_nonce env nonce enforce)
persist_access_nonce-Frames env nonce enforce = record {
  same = λ db a db' e. persist_access_nonce-SameMoney env nonce enforce db e;
}

pub ruleset frame_rules = (
  >>=-Frames, >>-Frames, return-Frames, lift-Frames, guard-Frames, write_credit_ledger-Frames,
  create_merchant_earning-Frames, persist_access_nonce-Frames,
)
