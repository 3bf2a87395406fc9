-- ===== src/Store/Monad.antt =====
-- `prisma.$transaction(async (tx) => ...)`: the writes of a body are kept if it returns and undone
-- if it throws. Each transaction is one step; a body whose reads other transactions may overtake
-- takes their writes as an argument.
use Prim.Native.String.{String}
use mathlib.Core.Path.{◌≡◌, refl, ap}
use mathlib.Core.Logic.{◌⊎◌, inl, inr}
use native.Mathlib.Omega.{arith}
use mathlib.Core.Bool.{Bool, true, false}
use ghost_protocol.Prelude.{Text}
use ghost_protocol.Store.Schema.{Db}

pub data Error : Type 0 where
  -- `throw new Error(message)`, of this code or of a library.
  failure : String → Error
  -- P2002, with the columns of `meta.target` and the model whose create threw it.
  unique_violation : Text → Text → Error
  -- P2025 on an update of a row that is not there.
  record_not_found : Error
  -- A number that its column cannot hold.
  out_of_range : Error
  access_nonce_replay : Error
  gate_source_replay : Error
  -- The errors of lib/ghostwire-store.ts.
  wire_quote_not_found wire_quote_expired wire_quote_consumed : Error
  wire_quote_mismatch : String → Error
  wire_job_not_found : Error
  wire_job_execution_conflict : String → Error
  wire_job_insufficient_balance : Error

pub data Result {ℓ} (A : Type ℓ) : Type ℓ where
  ok : A → Result A
  err : Error → Result A

-- A body that reads and writes the state S.
abbrev pub StateM : Type 0 → Type 0 → Type 0
StateM S A = S → Result (A × S)

abbrev pub M : Type 0 → Type 0
M A = StateM Db A

pub Result-cases {ℓ} :
    {A : Type ℓ} (r : Result A) → ((e : Error) × (r ≡ err e)) ⊎ ((a : A) × (r ≡ ok a))
Result-cases (ok a) = inr (a, refl)
Result-cases (err e) = inl (e, refl)

module _ {S : Type 0} where
  infixl 5 ◌>>=◌ ◌>>◌
  abbrev pub ◌>>=◌ : {A B : Type 0} → StateM S A → (A → StateM S B) → StateM S B
  ◌>>=◌ m f db = elim (m db) [ ok (a, db') ↦ f a db' | err e ↦ err e ]

  abbrev pub ◌>>◌ : {A B : Type 0} → StateM S A → StateM S B → StateM S B
  m >> k = m >>= λ _. k

  abbrev pub return : {A : Type 0} → A → StateM S A
  return a db = ok (a, db)

  abbrev pub throw : {A : Type 0} → Error → StateM S A
  throw e db = err e

  abbrev pub get : StateM S S
  get db = ok (db, db)

  abbrev pub put : S → StateM S (Unit {0})
  put db' db = ok (tt, db')

  -- A computation with no access to the database.
  abbrev pub lift : {A : Type 0} → Result A → StateM S A
  lift (ok a) db = ok (a, db)
  lift (err e) db = err e

  abbrev pub guard : Bool → Error → StateM S (Unit {0})
  guard true e db = ok (tt, db)
  guard false e db = err e

  -- The outcome that the caller sees, and the database afterwards: an error rolls back.
  abbrev pub transaction : {A : Type 0} → StateM S A → S → Result A × S
  transaction m db = elim (m db) [ ok (a, db') ↦ (ok a, db') | err e ↦ (err e, db) ]

  -- Inversion of a body that returned: its first step returned, and the rest did from there.
  pub >>=-eq-ok :
      {A B : Type 0} (m : StateM S A) (f : A → StateM S B) (db : S) {r : B × S}
      → (m >>= f) db ≡ ok r
      → (a : A) × (db' : S) × (m db ≡ ok (a, db')) × (f a db' ≡ ok r)
  >>=-eq-ok {A} {B} m f db {r} h = go (m db) refl h
    where
      go :
          (x : Result (A × S))
          → m db ≡ x
          → (elim x [ ok (a, db') ↦ f a db' | err e ↦ err e ]) ≡ ok r
          → (a : A) × (db' : S) × (m db ≡ ok (a, db')) × (f a db' ≡ ok r)
      go (ok (a, db')) e k = (a, db', e, k)
      go (err e) _ k = cc

  -- A body whose first step is known.
  pub >>=-ok :
      {A B : Type 0} (m : StateM S A) (f : A → StateM S B) (db : S) {a : A} {db' : S}
      → m db ≡ ok (a, db')
      → (m >>= f) db ≡ f a db'
  >>=-ok m f db e = rw (e, ◌>>=◌) refl

  pub >>=-err :
      {A B : Type 0} (m : StateM S A) (f : A → StateM S B) (db : S) {x : Error}
      → m db ≡ err x
      → (m >>= f) db ≡ err x
  >>=-err m f db e = rw (e, ◌>>=◌) refl

  pub ok-db :
      {A : Type 0} {a b : A} {db db' : S}
      → Path (Result (A × S)) (ok (a, db)) (ok (b, db'))
      → db ≡ db'
  ok-db e = ground arith

  pub ok-value :
      {A : Type 0} {a b : A} {db db' : S} → Path (Result (A × S)) (ok (a, db)) (ok (b, db')) → a ≡ b
  ok-value e = ground arith

  -- Steps that do not write.
  pub lift-db :
      {A : Type 0} (r : Result A) (db : S) {a : A} {db' : S} → lift r db ≡ ok (a, db') → db ≡ db'
  lift-db (ok a) db e = ok-db e
  lift-db (err x) db e = cc

  pub lift-value :
      {A : Type 0} (r : Result A) (db : S) {a : A} {db' : S} → lift r db ≡ ok (a, db') → r ≡ ok a
  lift-value (ok a) db e = ap ok (ok-value e)
  lift-value (err x) db e = cc

  pub guard-db :
      (b : Bool) (x : Error) (db : S) {a : Unit {0}} {db' : S}
      → guard b x db ≡ ok (a, db')
      → db ≡ db'
  guard-db true x db e = ok-db e
  guard-db false x db e = cc

  -- What holds before a transaction and after each body that returns holds after the transaction.
  pub transaction-keeps {ℓ} :
      {A : Type 0} (P : S → Type ℓ) (m : StateM S A) (db : S)
      → P db
      → ((a : A) (db' : S) → m db ≡ ok (a, db') → P db')
      → P (transaction m db).1
  transaction-keeps P m db p keep = elim (Result-cases (m db)) [
    | inl (x, e) ↦ rw (e, transaction) p
    | inr ((a, db'), e) ↦ rw (e, transaction) (keep a db' e)
  ]

  -- A transaction that answered has run its body to the end.
  pub transaction-eq-ok :
      {A : Type 0} (m : StateM S A) (db : S) {a : A} {db' : S}
      → transaction m db ≡ (ok a, db')
      → m db ≡ ok (a, db')
  transaction-eq-ok m db e = elim (Result-cases (m db)) [
    | inl (x, failed) ↦ absurd (ground arith)
    | inr ((b, db₁), done) ↦ ground arith
  ]

  -- A call that stops at an error with the database as it was, and goes on with a value.
  abbrev pub on_ok : {A B : Type 0} → Result A → S → (A → Result B × S) → Result B × S
  on_ok (ok a) db k = k a
  on_ok (err e) db k = (err e, db)

  pub on_ok-keeps {ℓ} :
      {A B : Type 0} (P : Result B × S → Type ℓ) (r : Result A) (db : S) (k : A → Result B × S)
      → ((e : Error) → P (err e, db))
      → ((a : A) → P (k a))
      → P (on_ok r db k)
  on_ok-keeps P (ok a) db k p q = q a
  on_ok-keeps P (err e) db k p q = p e
