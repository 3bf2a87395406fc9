-- ===== src/Settlement/Reconcile/Outcomes.antt =====
-- lib/merchant-settlement-reconcile.ts: the verdict on a submitted row, and the rows that are put
-- back.
use ghost_protocol.Prelude.{
  ℕ, ◌≡◌, refl, Bool, true, false, ◌&&◌, not, List, [], ◌∷◌, ◌++◌, Text, text_eq, text_eq_refl,
  some_of, every, All, All-map, arith,
}
use ghost_protocol.Settlement.Reconcile.{
  ReceiptStatus, missing, success, reverted, Chain, determine_settlement_reconciliation_outcome,
  SubmittedRow, receipt_of, Tally, handle_outcome, outcome_of, handle_rows, next_lists,
}

abbrev pub is_reverted : ReceiptStatus → Bool
is_reverted reverted = true
is_reverted missing = false
is_reverted success = false

-- A row of this id that the vault has not processed and whose transaction was reverted.
abbrev pub put_back : Chain → List Text → List SubmittedRow → Text → Bool
put_back chain hashes rows id =
    some_of
      (λ row.
        text_eq row.id id
        && not (chain.processed row.settlement_id)
        && is_reverted (receipt_of chain hashes row.tx_hash).status)
      rows

every-append :
    (p : Text → Bool) (xs ys : List Text)
    → every p xs ≡ true
    → every p ys ≡ true
    → every p (xs ++ ys) ≡ true
every-append p [] ys h k = k
every-append p (x ∷ xs) ys h k = ground (arith, every-append p xs ys)

-- What `put_back` is to find in its rows.
abbrev IsFound : Chain → List Text → (Text → Bool) → SubmittedRow → Type 0
IsFound chain hashes p row =
    (not (chain.processed row.settlement_id)
        && is_reverted (receipt_of chain hashes row.tx_hash).status)
      ≡ true
    → p row.id ≡ true

handle_outcome-put_back :
    (chain : Chain) (hashes : List Text) (min : ℕ) (p : Text → Bool) (row : SubmittedRow)
    (t : Tally)
    → IsFound chain hashes p row
    → every p t.requeued_ids ≡ true
    → every p (handle_outcome row (outcome_of chain hashes min row) t).requeued_ids ≡ true
unfolding handle_outcome determine_settlement_reconciliation_outcome
handle_outcome-put_back chain hashes min p row t found h =
    ground (arith, found, every-append p t.requeued_ids (row.id ∷ []))

handle_rows-every :
    (chain : Chain) (hashes : List Text) (min : ℕ) (p : Text → Bool) (rows : List SubmittedRow)
    (t : Tally)
    → All (IsFound chain hashes p) rows
    → every p t.requeued_ids ≡ true
    → every p (handle_rows chain hashes min rows t).requeued_ids ≡ true
unfolding handle_rows
handle_rows-every chain hashes min p [] t found h = h
handle_rows-every chain hashes min p (row ∷ rows) t (here, found) h =
    handle_rows-every chain hashes min p rows
      (handle_outcome row (outcome_of chain hashes min row) t) found
      (handle_outcome-put_back chain hashes min p row t here h)

rows-IsFound :
    (chain : Chain) (hashes : List Text) (rows : List SubmittedRow)
    → All (IsFound chain hashes (put_back chain hashes rows)) rows
rows-IsFound chain hashes [] = tt
rows-IsFound chain hashes (row ∷ rows) = (
  λ e. ground (arith, text_eq_refl row.id),
  All-map (IsFound chain hashes (put_back chain hashes rows))
      (IsFound chain hashes (put_back chain hashes (row ∷ rows))) rows
      (λ k f e. ground (arith, f e)) (rows-IsFound chain hashes rows),
)

-- Whatever the loops have counted so far, every id that a loop over submitted rows puts back is that of one
-- of its rows, which the vault has not processed and whose transaction was reverted.
pub handle_rows-put_back :
    (chain : Chain) (hashes : List Text) (min : ℕ) (rows : List SubmittedRow) (t : Tally)
    → every
        (put_back chain hashes rows)
        (handle_rows chain hashes min rows (next_lists t)).requeued_ids
      ≡ true
handle_rows-put_back chain hashes min rows t =
    handle_rows-every chain hashes min (put_back chain hashes rows) rows (next_lists t)
      (rows-IsFound chain hashes rows) refl
