-- ===== src/Settlement/Rollup/Complete.antt =====
-- lib/merchant-settlement-rollup.ts: rows that are all due, and that the cap does not cut, are all in the
-- candidates.
use ghost_protocol.Prelude.{
  ℕ, ◌+◌, ◌≤◌, ◌<◌, ◌≡◌, ◌⊎◌, inl, inr, List, [], ◌∷◌, ◌++◌, Text, ◌==◌, text_eq, refl, leb, length,
  length-append, sum_by, arith, Bool-cases, All,
}
use ghost_protocol.Prelude.Sorting.{sort_by, sum_by-sort_by, All-sort_by}
use ghost_protocol.Store.{ok, Result-cases}
use ghost_protocol.Env.{Env}
use ghost_protocol.Credits.{normalize_address_key}
use ghost_protocol.Settlement.Rollup.{
  RollupSourceRow, RollupConfig, RollupCandidate, compare_rows, Groups, add_row, normalize_row,
  group_rows, release_groups, release_reason_of, compare_candidates,
  build_merchant_settlement_rollup_candidates,
}
use ghost_protocol.Settlement.Rollup.Totals.{occurs, uses_of, grouped_uses, uses_of-snoc, map-uses}

-- A row that is worth a transaction by its own fee, or that has waited long enough.
abbrev pub IsReady : RollupConfig → ℕ → RollupSourceRow → Type 0
IsReady config now r = (config.min_fee_wei ≤ r.fee_wei) ⊎ (r.created_at + config.max_age_ms ≤ now)

abbrev AllReady : RollupConfig → ℕ → Groups → Type 0
AllReady config now groups =
    All (λ (g : Text × List RollupSourceRow). All (IsReady config now) g.1) groups

abbrev size_of : Groups → ℕ
size_of groups = sum_by (λ (g : Text × List RollupSourceRow). length g.1) groups

sum_by-one : (rows : List RollupSourceRow) → sum_by (λ r. 1) rows ≡ length rows
unfolding sum_by
sum_by-one [] = refl
sum_by-one (r ∷ rs) = omega (arith, sum_by-one rs)

All-snoc :
    (P : RollupSourceRow → Type 0) (rows : List RollupSourceRow) (row : RollupSourceRow)
    → All P rows
    → P row
    → All P (rows ++ row ∷ [])
All-snoc P [] row h b = (b, tt)
All-snoc P (r ∷ rs) row (h, hs) b = (h, All-snoc P rs row hs b)

add_row-room :
    (wanted : Text) (max : ℕ) (owner : Text) (row : RollupSourceRow) (groups : Groups)
    → size_of groups < max
    → (size_of (add_row max owner row groups) ≡ size_of groups + 1)
      × (grouped_uses wanted (add_row max owner row groups)
          ≡ grouped_uses wanted groups + occurs wanted row.id)
unfolding add_row sum_by
add_row-room wanted max owner row [] h = ground arith
add_row-room wanted max owner row ((key, rows) ∷ groups) h =
    let rest = add_row-room wanted max owner row groups (omega arith) in
    ground (arith, length-append rows (row ∷ []), uses_of-snoc wanted rows row, rest.0, rest.1)

add_row-AllReady :
    (config : RollupConfig) (now max : ℕ) (owner : Text) (row : RollupSourceRow) (groups : Groups)
    → IsReady config now row
    → AllReady config now groups
    → AllReady config now (add_row max owner row groups)
unfolding add_row
add_row-AllReady config now max owner row [] b h = elim (Bool-cases (leb max 0)) [
  | inl never ↦ rw never tt
  | inr room ↦ rw room ((b, tt), tt)
]
add_row-AllReady config now max owner row ((key, rows) ∷ groups) b (ready, h) =
    elim (Bool-cases (text_eq key owner)) [
      | inr other ↦ rw other (ready, add_row-AllReady config now max owner row groups b h)
      | inl same ↦ elim (Bool-cases (leb max (length rows))) [
        | inl full ↦ rw (same, full) (ready, h)
        | inr room ↦ rw (same, room) (All-snoc (IsReady config now) rows row ready b, h)
      ]
    ]

group_rows_complete :
    (wanted : Text) (env : Env) (config : RollupConfig) (now max : ℕ) (rows : List RollupSourceRow)
    (groups : Groups) {out : Groups}
    → All (IsReady config now) rows
    → AllReady config now groups
    → size_of groups + length rows ≤ max
    → group_rows env max rows groups ≡ ok out
    → AllReady config now out
      × (grouped_uses wanted out ≡ grouped_uses wanted groups + uses_of wanted rows)
unfolding group_rows sum_by
group_rows_complete wanted env config now max [] groups {out} b h room e =
    let same : groups ≡ out = ground arith in rw⁻¹ same (h, omega arith)
group_rows_complete wanted env config now max (row ∷ rows) groups {out} (b, bs) h room e =
    elim (Result-cases (normalize_address_key env row.merchant_owner_address)) [
      | inl (bad, refused) ↦ absurd (ground arith)
      | inr (owner, known) ↦
          let added =
            add_row-room wanted max owner (normalize_row owner row) groups (omega arith) in
          let (ready, kept) =
            group_rows_complete wanted env config now max rows
              (add_row max owner (normalize_row owner row) groups) {out = out} bs
              (add_row-AllReady config now max owner (normalize_row owner row) groups b h)
              (omega (arith, added.0)) (ground arith) in
          (ready, omega (arith, kept, added.1))
    ]

release_groups_complete :
    (wanted : Text) (config : RollupConfig) (now : ℕ) (groups : Groups)
    → AllReady config now groups
    → sum_by (λ c. sum_by (occurs wanted) c.earning_ids) (release_groups config now groups)
      ≡ grouped_uses wanted groups
unfolding release_groups release_reason_of sum_by
release_groups_complete wanted config now [] h = refl
release_groups_complete wanted config now ((owner, []) ∷ groups) (g, h) =
    omega (arith, release_groups_complete wanted config now groups h)
release_groups_complete wanted config now ((owner, row ∷ rows) ∷ groups) ((b, bs), h) =
    let rest = release_groups_complete wanted config now groups h in
    ground (arith, map-uses wanted rows, rest)

uses_of-none :
    (wanted : Text) (rows : List RollupSourceRow) → length rows ≤ 0 → uses_of wanted rows ≡ 0
unfolding sum_by
uses_of-none wanted [] h = refl
uses_of-none wanted (r ∷ rs) h = absurd (omega arith)

-- If every row that buildMerchantSettlementRollupCandidates is given is ready, by its own fee or its age,
-- and there are no more rows than a rollup may have, then an earning stands in the candidates that it
-- answers exactly as often as in the rows: none is left behind.
pub build_merchant_settlement_rollup_candidates_complete :
    (env : Env) (rows : List RollupSourceRow) (config : RollupConfig) (now : ℕ)
    {cs : List RollupCandidate}
    → All (IsReady config now) rows
    → length rows ≤ config.max_earnings_per_rollup
    → build_merchant_settlement_rollup_candidates env rows config now ≡ ok cs
    → (wanted : Text)
    → sum_by (λ c. sum_by (occurs wanted) c.earning_ids) cs ≡ sum_by (λ r. occurs wanted r.id) rows
unfolding build_merchant_settlement_rollup_candidates sum_by
build_merchant_settlement_rollup_candidates_complete env rows config now {cs} b short e wanted =
    elim (Bool-cases (config.max_earnings_per_rollup == 0)) [
      | inl never ↦
          let none_built : [] ≡ cs = ground arith in
          rw⁻¹ none_built (ground (arith, uses_of-none wanted rows))
      | inr some_built ↦
          elim (Result-cases
            (group_rows env config.max_earnings_per_rollup (sort_by (compare_rows env) rows) [])) [
              | inl (bad, refused) ↦ absurd (ground arith)
              | inr (groups, grouped) ↦
                  let built : sort_by (compare_candidates env) (release_groups config now groups)
                      ≡ cs =
                    ground arith in
                  let size : length (sort_by (compare_rows env) rows) ≡ length rows = omega (
                    arith,
                    sum_by-one (sort_by (compare_rows env) rows),
                    sum_by-one rows,
                    sum_by-sort_by (compare_rows env) (λ r. 1) rows,
                  ) in
                  let (ready, kept) =
                    group_rows_complete wanted env config now config.max_earnings_per_rollup
                      (sort_by (compare_rows env) rows) []
                      (All-sort_by (compare_rows env) (IsReady config now) rows b) tt
                      (omega (arith, size)) grouped in
                  rw⁻¹ built (
                    omega (
                      arith,
                      kept,
                      sum_by-sort_by (compare_candidates env)
                          (λ c. sum_by (occurs wanted) c.earning_ids)
                          (release_groups config now groups),
                      release_groups_complete wanted config now groups ready,
                      sum_by-sort_by (compare_rows env) (λ r. occurs wanted r.id) rows,
                    ))
            ]
    ]
