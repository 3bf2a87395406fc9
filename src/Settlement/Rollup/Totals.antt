-- ===== src/Settlement/Rollup/Totals.antt =====
-- lib/merchant-settlement-rollup.ts: how often an earning stands in the candidates.
use ghost_protocol.Prelude.{
  ℕ, ◌+◌, ◌≤◌, ◌≡◌, inl, inr, List, [], ◌∷◌, ◌++◌, Text, ◌==◌, map, text_eq, if◌then◌else◌, refl,
  sum_by, arith, Bool-cases,
}
use ghost_protocol.Prelude.Sorting.{sort_by, sum_by-sort_by}
use ghost_protocol.Store.{ok, Result-cases}
use ghost_protocol.Env.{Env}
use ghost_protocol.Credits.{normalize_address_key}
use ghost_protocol.Settlement.Rollup.{
  RollupSourceRow, RollupConfig, RollupCandidate, compare_rows, Groups, add_row, normalize_row,
  group_rows, release_groups, compare_candidates, build_merchant_settlement_rollup_candidates,
}

-- One for the id that is looked for.
abbrev pub occurs : Text → Text → ℕ
occurs wanted id = if text_eq wanted id then 1 else 0

abbrev pub uses_of : Text → List RollupSourceRow → ℕ
uses_of wanted rows = sum_by (λ r. occurs wanted r.id) rows

abbrev pub grouped_uses : Text → Groups → ℕ
grouped_uses wanted groups = sum_by (λ (g : Text × List RollupSourceRow). uses_of wanted g.1) groups

pub uses_of-snoc :
    (wanted : Text) (rows : List RollupSourceRow) (row : RollupSourceRow)
    → uses_of wanted (rows ++ row ∷ []) ≡ uses_of wanted rows + occurs wanted row.id
unfolding sum_by
uses_of-snoc wanted [] row = omega arith
uses_of-snoc wanted (r ∷ rs) row = omega (arith, uses_of-snoc wanted rs row)

add_row-uses :
    (wanted : Text) (max : ℕ) (owner : Text) (row : RollupSourceRow) (groups : Groups)
    → grouped_uses wanted (add_row max owner row groups)
      ≤ grouped_uses wanted groups + occurs wanted row.id
unfolding add_row sum_by
add_row-uses wanted max owner row [] = ground arith
add_row-uses wanted max owner row ((key, rows) ∷ groups) =
    ground (arith, uses_of-snoc wanted rows row, add_row-uses wanted max owner row groups)

group_rows-uses :
    (wanted : Text) (env : Env) (max : ℕ) (rows : List RollupSourceRow) (groups : Groups)
    {out : Groups}
    → group_rows env max rows groups ≡ ok out
    → grouped_uses wanted out ≤ grouped_uses wanted groups + uses_of wanted rows
unfolding group_rows sum_by
group_rows-uses wanted env max [] groups e = ground arith
group_rows-uses wanted env max (row ∷ rows) groups {out} e =
    elim (Result-cases (normalize_address_key env row.merchant_owner_address)) [
      | inl (bad, refused) ↦ absurd (ground arith)
      | inr (owner, known) ↦ ground (
        arith,
        add_row-uses wanted max owner (normalize_row owner row) groups,
        group_rows-uses wanted env max rows (add_row max owner (normalize_row owner row) groups)
            {out = out},
      )
    ]

pub map-uses :
    (wanted : Text) (rows : List RollupSourceRow)
    → sum_by (occurs wanted) (map (λ r. r.id) rows) ≡ uses_of wanted rows
unfolding sum_by
map-uses wanted [] = refl
map-uses wanted (r ∷ rs) = omega (arith, map-uses wanted rs)

release_groups-uses :
    (wanted : Text) (config : RollupConfig) (now : ℕ) (groups : Groups)
    → sum_by (λ c. sum_by (occurs wanted) c.earning_ids) (release_groups config now groups)
      ≤ grouped_uses wanted groups
unfolding release_groups sum_by
release_groups-uses wanted config now [] = ground arith
release_groups-uses wanted config now ((owner, []) ∷ groups) =
    ground (arith, release_groups-uses wanted config now groups)
release_groups-uses wanted config now ((owner, row ∷ rows) ∷ groups) =
    ground (arith, map-uses wanted rows, release_groups-uses wanted config now groups)

-- An earning stands in all the candidates of buildMerchantSettlementRollupCandidates together at most
-- as often as it stands in the rows that it was given: no earning is rolled up twice.
pub build_merchant_settlement_rollup_candidates-once :
    (env : Env) (rows : List RollupSourceRow) (config : RollupConfig) (now : ℕ)
    {cs : List RollupCandidate}
    → build_merchant_settlement_rollup_candidates env rows config now ≡ ok cs
    → (wanted : Text)
    → sum_by (λ c. sum_by (occurs wanted) c.earning_ids) cs ≤ sum_by (λ r. occurs wanted r.id) rows
unfolding build_merchant_settlement_rollup_candidates sum_by
build_merchant_settlement_rollup_candidates-once env rows config now {cs} e wanted =
    elim (Bool-cases (config.max_earnings_per_rollup == 0)) [
      | inl never ↦ let none_built : [] ≡ cs = ground arith in rw⁻¹ none_built (ground arith)
      | inr some_built ↦
          elim (Result-cases
            (group_rows env config.max_earnings_per_rollup (sort_by (compare_rows env) rows) [])) [
              | inl (bad, refused) ↦ absurd (ground arith)
              | inr (groups, grouped) ↦
                  let built : sort_by (compare_candidates env) (release_groups config now groups)
                      ≡ cs =
                    ground arith in
                  let bound =
                    group_rows-uses wanted env config.max_earnings_per_rollup
                      (sort_by (compare_rows env) rows) [] grouped in
                  rw⁻¹ built (
                    ground (
                      arith,
                      bound,
                      sum_by-sort_by (compare_candidates env)
                          (λ c. sum_by (occurs wanted) c.earning_ids)
                          (release_groups config now groups),
                      release_groups-uses wanted config now groups,
                      sum_by-sort_by (compare_rows env) (λ r. occurs wanted r.id) rows,
                    ))
            ]
    ]
