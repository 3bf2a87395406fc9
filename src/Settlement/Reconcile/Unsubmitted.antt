-- ===== src/Settlement/Reconcile/Unsubmitted.antt =====
-- lib/merchant-settlement-reconcile.ts: the transaction and the earnings that are not submitted.
use mathlib.Core.Path.{subst}
use ghost_protocol.Prelude.{
  ℕ, suc, ◌+◌, ◌-◌, ◌≡◌, refl, inl, inr, Bool, false, some, List, [], ◌∷◌, ◌++◌, Text, String,
  text_eq, find, update_many, length, ◌==◌, arith, Option-cases,
}
use ghost_protocol.Store.{
  MerchantEarning, SettlementRollup, Db, Error, failure, ok, M, ◌>>=◌, return, guard, >>=-eq-ok,
  ok-db, guard-db, transaction-keeps,
}
use ghost_protocol.Env.{Env}
use ghost_protocol.Settlement.Reconcile.{
  Chain, SubmittedRow, ReconcileInput, BatchUpdate, is_submitted, derive_batch_status_update, Tally,
  submitted_rollups, submitted_legacy_rows, cached_hashes, handle_rows, empty_tally, next_lists,
}
use ghost_protocol.Settlement.Reconcile.Write.{
  update_earnings, update_rollups, move_rollups, move_earnings, batch_rows, update_batch,
  update_batches, write_reconciliation, confirm_rollup, requeue_rollup, confirm_earning,
  requeue_earning, requeue_legacy, earning_count_of, confirm_rollups, requeue_rollups,
  confirm_legacy_rows, requeue_legacy_rows, limit_of, report_of, ReconcileResult,
  reconcile_merchant_settlement_rows, submitted_in, member_in, rollup_in,
}

abbrev pub earning_id_is : Text → MerchantEarning → Bool
earning_id_is id e = text_eq e.id id

-- A body after which an earning that is not submitted is found as before.
record Leaves {A : Type 0} (m : M A) : Type 0 where
  same :
      (id : Text) (e : MerchantEarning) (db : Db) (a : A) (db' : Db)
      → is_submitted e.status ≡ false
      → find (earning_id_is id) db.earnings ≡ some e
      → m db ≡ ok (a, db')
      → find (earning_id_is id) db'.earnings ≡ some e

>>=-Leaves :
    {A B : Type 0} {m : M A} {f : A → M B} → Leaves m → ((a : A) → Leaves (f a)) → Leaves (m >>= f)
>>=-Leaves {m = m} {f = f} x y = record {
  same = λ id e db b db' over there ran.
      let (a, db₁, first, rest) = >>=-eq-ok m f db ran in
      (y a).same id e db₁ b db' over (x.same id e db a db₁ over there first) rest;
}

return-Leaves : {A : Type 0} (a : A) → Leaves (return a)
return-Leaves a = record {
  same = λ id e db b db' over there ran.
      subst (λ d. find (earning_id_is id) d.earnings ≡ some e) (ok-db ran) there;
}

guard-Leaves : (b : Bool) (x : Error) → Leaves (guard b x)
guard-Leaves b x = record {
  same = λ id e db u db' over there ran.
      subst (λ d. find (earning_id_is id) d.earnings ≡ some e) (guard-db b x db ran) there;
}

find-update_many :
    (p q : MerchantEarning → Bool) (f : MerchantEarning → MerchantEarning)
    (es : List MerchantEarning) {e : MerchantEarning}
    → ((k : MerchantEarning) → p (f k) ≡ p k)
    → q e ≡ false
    → find p es ≡ some e
    → find p (update_many q f es) ≡ some e
unfolding find update_many
find-update_many p q f [] keep out there = cc
find-update_many p q f (k ∷ ks) {e} keep out there =
    ground (arith, keep k, find-update_many p q f ks {e = e} keep)

update_earnings-Leaves :
    (q : MerchantEarning → Bool) (f : MerchantEarning → MerchantEarning)
    → ((e : MerchantEarning) → (f e).id ≡ e.id)
    → ((e : MerchantEarning) → is_submitted e.status ≡ false → q e ≡ false)
    → Leaves (update_earnings q f)
unfolding update_earnings
update_earnings-Leaves q f keep only = record {
  same = λ id e db n db' over there ran.
      let es : db'.earnings ≡ update_many q f db.earnings = ground arith in
      rw es (
        find-update_many (earning_id_is id) q f db.earnings (λ k. rw (keep k) refl) (only e over)
          there);
}

update_rollups-Leaves :
    (q : SettlementRollup → Bool) (f : SettlementRollup → SettlementRollup)
    → Leaves (update_rollups q f)
unfolding update_rollups
update_rollups-Leaves q f = record { same = λ id e db n db' over there ran. ground arith }

move_rollups-Leaves :
    (f : SettlementRollup → SettlementRollup) (g : MerchantEarning → MerchantEarning) (x y : String)
    (ids : List Text) (expected : ℕ)
    → ((e : MerchantEarning) → (g e).id ≡ e.id)
    → Leaves (move_rollups f g x y ids expected)
unfolding move_rollups
move_rollups-Leaves f g x y [] expected keep = return-Leaves tt
move_rollups-Leaves f g x y (id ∷ ids) expected keep =
    >>=-Leaves (update_rollups-Leaves (rollup_in (id ∷ ids)) f) λ n.
      >>=-Leaves (guard-Leaves (n == length (id ∷ ids)) (failure x)) λ _.
        >>=-Leaves (update_earnings-Leaves (member_in (id ∷ ids)) g keep (λ e over. ground arith))
          λ k. guard-Leaves (k == expected) (failure y)

move_earnings-Leaves :
    (g : MerchantEarning → MerchantEarning) (x : String) (ids : List Text)
    → ((e : MerchantEarning) → (g e).id ≡ e.id)
    → Leaves (move_earnings g x ids)
unfolding move_earnings
move_earnings-Leaves g x [] keep = return-Leaves tt
move_earnings-Leaves g x (id ∷ ids) keep =
    >>=-Leaves (update_earnings-Leaves (submitted_in (id ∷ ids)) g keep (λ e over. ground arith))
      λ k. guard-Leaves (k == length (id ∷ ids)) (failure x)

update_batch-Leaves : (id : Text) (u : BatchUpdate) → Leaves (update_batch id u)
unfolding update_batch
update_batch-Leaves b u = record { same = λ id e db n db' over there ran. ground arith }

update_batches-Leaves :
    (now : ℕ) (bs requeued : List Text) → Leaves (update_batches now bs requeued)
unfolding update_batches
update_batches-Leaves now [] requeued = record {
  same = λ id e db n db' over there ran. ground arith;
}
update_batches-Leaves now (b ∷ bs) requeued = record {
  same = λ id e db n db' over there ran.
      elim (Option-cases (derive_batch_status_update now (batch_rows b requeued db))) [
        | inl same ↦
            (update_batches-Leaves now bs requeued).same id e db n db' over there
              (rw (update_batches, same) at ran)
        | inr (u, next) ↦
            (>>=-Leaves (update_batch-Leaves b u) λ _.
                >>=-Leaves (update_batches-Leaves now bs requeued) λ n. return-Leaves (suc n)).same
              id e db n db' over there (rw (update_batches, next) at ran)
      ];
}

confirm_rollups-Leaves :
    (now : ℕ) (rollups : List SubmittedRow) (ids : List Text)
    → Leaves (confirm_rollups now rollups ids)
unfolding confirm_rollups
confirm_rollups-Leaves now rollups ids =
    move_rollups-Leaves (confirm_rollup now) (confirm_earning now) _ _ ids
      (earning_count_of ids rollups) (λ e. refl)

requeue_rollups-Leaves :
    (now : ℕ) (rollups : List SubmittedRow) (ids : List Text)
    → Leaves (requeue_rollups now rollups ids)
unfolding requeue_rollups
requeue_rollups-Leaves now rollups ids =
    move_rollups-Leaves (requeue_rollup now) (requeue_earning now) _ _ ids
      (earning_count_of ids rollups) (λ e. refl)

confirm_legacy_rows-Leaves : (now : ℕ) (ids : List Text) → Leaves (confirm_legacy_rows now ids)
unfolding confirm_legacy_rows
confirm_legacy_rows-Leaves now ids = move_earnings-Leaves (confirm_earning now) _ ids (λ e. refl)

requeue_legacy_rows-Leaves : (now : ℕ) (ids : List Text) → Leaves (requeue_legacy_rows now ids)
unfolding requeue_legacy_rows
requeue_legacy_rows-Leaves now ids = move_earnings-Leaves (requeue_legacy now) _ ids (λ e. refl)

write_reconciliation-Leaves :
    (now : ℕ) (rollups : List SubmittedRow) (r l : Tally)
    → Leaves (write_reconciliation now rollups r l)
unfolding write_reconciliation
write_reconciliation-Leaves now rollups r l =
    >>=-Leaves (confirm_rollups-Leaves now rollups r.confirmed_ids) λ _.
      >>=-Leaves (requeue_rollups-Leaves now rollups r.requeued_ids) λ _.
        >>=-Leaves (confirm_legacy_rows-Leaves now l.confirmed_ids) λ _.
          >>=-Leaves (requeue_legacy_rows-Leaves now l.requeued_ids)
            λ _. update_batches-Leaves now l.touched l.requeued_batches

-- Whatever the chain says and whatever reconcileMerchantSettlementRows answers, an earning that is not
-- submitted when its transaction begins, a confirmed one above all, is there unchanged when it ends.
pub reconcile_merchant_settlement_rows-unsubmitted :
    (env : Env) (chain : Chain) (between : Db → Db) (now : ℕ) (input : ReconcileInput) (db : Db)
    (id : Text) (e : MerchantEarning)
    → is_submitted e.status ≡ false
    → find (earning_id_is id) (between db).earnings ≡ some e
    → find
        (earning_id_is id)
        (reconcile_merchant_settlement_rows env chain between now input db).1.earnings
      ≡ some e
unfolding reconcile_merchant_settlement_rows
reconcile_merchant_settlement_rows-unsubmitted env chain between now input db id e over there =
    let rollups = submitted_rollups env input (limit_of input) db in
    let legacy = submitted_legacy_rows env input (limit_of input - length rollups) db in
    let hashes = cached_hashes (rollups ++ legacy) in
    let r = handle_rows chain hashes input.min_confirmations rollups empty_tally in
    let l = handle_rows chain hashes input.min_confirmations legacy (next_lists r) in
    let body : M ℕ = write_reconciliation now rollups r l in
    let answer : ℕ → M ReconcileResult =
      λ n. return (report_of (length rollups + length legacy) l n) in
    transaction-keeps (λ d. find (earning_id_is id) d.earnings ≡ some e) (body >>= answer)
      (between db) there
      (λ x db' ran.
        (>>=-Leaves {m = body} {f = answer} (write_reconciliation-Leaves now rollups r l)
            λ n. return-Leaves (report_of (length rollups + length legacy) l n)).same
          id e (between db) x db' over there ran)
