-- ===== src/Holds/Solvency/Capture.antt =====
-- lib/db.ts, captureFulfillmentHold, for the invariant: the writes of a capture.
use mathlib.Core.Path.{subst}
use ghost_protocol.Prelude.{
  ◌∙◌, text_eq_refl, ℕ, ◌≡◌, refl, sym, leb, inl, inr, Bool, Option, some, Text, update, arith,
  Option-cases,
}
use ghost_protocol.Store.{CreditBalance, FulfillmentHold, Db, ok, ◌>>=◌, >>=-eq-ok, guard-db}
use ghost_protocol.Env.{Env}
use ghost_protocol.Credits.{find_balance, wallet_is, update_balance}
use ghost_protocol.Credits.Frame.{SameMoney, Frames, frame_rules}
use ghost_protocol.Holds.{hold_id_is, update_hold}
use ghost_protocol.Holds.Settle.{
  Capture, CaptureFulfillmentHoldResult, mark_captured, spend_held, create_attempt, refuse,
  held_covers, book_capture, report_capture, settle_hold, finalize_capture,
}
use ghost_protocol.Holds.Ids.{update-IsDistinct}
use ghost_protocol.Holds.Solvency.{
  cost-le-held_sum, close-IsSolvent, close-total_of, SameMoney-IsSolvent,
}
use ghost_protocol.Holds.Solvency.Sweep.{update-IsSingle, IsKept, IsDue}

pub SameMoney-IsKept :
    {total : Text → ℕ} {db db' : Db} → SameMoney db db' → IsKept total db → IsKept total db'
SameMoney-IsKept {total} same s = record {
  sound = record {
    solvent = SameMoney-IsSolvent same s.sound.solvent;
    distinct = rw same.holds s.sound.distinct;
    single = rw same.holds s.sound.single;
  };
  balanced = λ w. rw (same.balances, same.holds) (s.balanced w);
}

-- What settling one hold has done.
pub record Settles (c : Capture) (h : FulfillmentHold) (db : Db) (u : CreditBalance) (db' : Db)
    : Type 0 where
  pub row : CreditBalance
  pub funded : find_balance h.wallet_address db ≡ some row
  pub result : u ≡ spend_held h.cost row
  pub holds : db'.holds ≡ update (hold_id_is h.id) (mark_captured c) db.holds
  pub balances : db'.balances ≡ update (wallet_is h.wallet_address) (spend_held h.cost) db.balances
  pub signers : db'.signers ≡ db.signers

pub settle_hold-Settles :
    (c : Capture) (h : FulfillmentHold) (db : Db) {u : CreditBalance} {db' : Db}
    → settle_hold c h db ≡ ok (u, db')
    → Settles c h db u db'
unfolding settle_hold update_hold update_balance
settle_hold-Settles c h db e = elim (Option-cases (find_balance h.wallet_address db)) [
  | inl missing ↦ absurd (ground arith)
  | inr (b, funded) ↦ record {
    row = b;
    funded = funded;
    result = ground arith;
    holds = ground arith;
    balances = ground arith;
    signers = ground arith;
  }
]

pub Settles-IsKept :
    {total : Text → ℕ} (c : Capture) (h : FulfillmentHold) (db : Db) {u : CreditBalance} {db' : Db}
    → IsKept total db
    → IsDue db h
    → Settles c h db u db'
    → IsKept total db'
Settles-IsKept {total} c h db {db' = db'} s (stored, live) x = record {
  sound = record {
    solvent =
        close-IsSolvent db db' h x.row (mark_captured c) (spend_held h.cost) s.sound.solvent stored
          live x.funded refl (λ _. refl)
          (ground (
            arith,
            s.sound.solvent h.wallet_address,
            cost-le-held_sum (hold_id_is h.id) db.holds stored live,
            x.funded,
          ))
          x.holds x.balances;
    distinct =
        rw x.holds (update-IsDistinct _ (mark_captured c) db.holds (λ k. refl) s.sound.distinct);
    single =
        rw x.holds (update-IsSingle h.id (mark_captured c) db.holds (λ k. refl) s.sound.single);
  };
  balanced = λ w.
      close-total_of db db' h x.row (mark_captured c) (spend_held h.cost) stored x.funded refl
        (λ _. refl) (ground (arith, text_eq_refl h.wallet_address)) x.holds x.balances w
      ∙ s.balanced w;
}

pub create_attempt-Frames :
    (c : Capture) (h : FulfillmentHold) (done : Bool) (status : ℕ) (d x : Option Text)
    → Frames (create_attempt c h done status d x)
unfolding create_attempt
create_attempt-Frames c h done status d x = record { same = λ db a db' e. ground arith }

pub book_capture-Frames :
    (env : Env) (id : Text) (now : ℕ) (c : Capture) (h : FulfillmentHold) (before after : ℕ)
    → Frames (book_capture env id now c h before after)
unfolding book_capture
book_capture-Frames env id now c h before after =
    search (frame_rules, create_attempt-Frames) depth 12

report_capture-Frames :
    (env : Env) (id : Text) (now : ℕ) (c : Capture) (h : FulfillmentHold) (b u : CreditBalance)
    → Frames (report_capture env id now c h b u)
unfolding report_capture
report_capture-Frames env id now c h b u = search (frame_rules, book_capture-Frames)

-- A finished capture has settled its hold, and moved no other money.
pub finalize_capture-Settles :
    (env : Env) (id : Text) (now : ℕ) (c : Capture) (h : FulfillmentHold) (b : CreditBalance)
    (db : Db) {r : CaptureFulfillmentHoldResult} {db' : Db}
    → finalize_capture env id now c h b db ≡ ok (r, db')
    → (u : CreditBalance) × (db₁ : Db) × Settles c h db u db₁ × SameMoney db₁ db'
unfolding finalize_capture
finalize_capture-Settles env id now c h b db {r} {db'} e =
    let (_, db₀, checked, k₀) =
      >>=-eq-ok (held_covers b h) (λ _. settle_hold c h >>= report_capture env id now c h b) db e in
    let same : db ≡ db₀ = guard-db (leb h.cost b.held_credits) _ db checked in
    let (u, db₁, settled, k₁) =
      >>=-eq-ok (settle_hold c h) (report_capture env id now c h b) db₀ k₀ in
    (
      u,
      db₁,
      settle_hold-Settles c h db (subst (λ d. settle_hold c h d ≡ ok (u, db₁)) (sym same) settled),
      (report_capture-Frames env id now c h b u).same db₁ r db' k₁,
    )

pub refuse-Frames :
    (c : Capture) (h : FulfillmentHold) (status : ℕ) (code : Text)
    (result : CaptureFulfillmentHoldResult)
    → Frames (refuse c h status code result)
unfolding refuse
refuse-Frames c h status code result = search (frame_rules, create_attempt-Frames)

pub refuse-IsKept :
    {total : Text → ℕ} (c : Capture) (h : FulfillmentHold) (status : ℕ) (code : Text)
    (result : CaptureFulfillmentHoldResult) (db : Db) {r : CaptureFulfillmentHoldResult} {db' : Db}
    → IsKept total db
    → refuse c h status code result db ≡ ok (r, db')
    → IsKept total db'
refuse-IsKept {total} c h status code result db {r} {db'} s e =
    SameMoney-IsKept ((refuse-Frames c h status code result).same db r db' e) s

pub finalize_capture-IsKept :
    {total : Text → ℕ} (env : Env) (id : Text) (now : ℕ) (c : Capture) (h : FulfillmentHold)
    (b : CreditBalance) (db : Db) {r : CaptureFulfillmentHoldResult} {db' : Db}
    → IsKept total db
    → IsDue db h
    → finalize_capture env id now c h b db ≡ ok (r, db')
    → IsKept total db'
finalize_capture-IsKept {total} env id now c h b db s due e =
    let (u, db₁, settled, same) = finalize_capture-Settles env id now c h b db e in
    SameMoney-IsKept same (Settles-IsKept c h db s due settled)

pub finalize_capture-signers :
    (env : Env) (id : Text) (now : ℕ) (c : Capture) (h : FulfillmentHold) (b : CreditBalance)
    (db : Db) {r : CaptureFulfillmentHoldResult} {db' : Db}
    → finalize_capture env id now c h b db ≡ ok (r, db')
    → db'.signers ≡ db.signers
finalize_capture-signers env id now c h b db e =
    let (u, db₁, x, same) = finalize_capture-Settles env id now c h b db e in
    same.signers ∙ x.signers
