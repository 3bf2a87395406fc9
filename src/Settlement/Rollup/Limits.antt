-- ===== src/Settlement/Rollup/Limits.antt =====
-- lib/merchant-settlement-rollup.ts: the size, the balance and the release of a candidate.
use mathlib.Core.Path.{subst}
use ghost_protocol.Prelude.{
  ℕ, ◌+◌, ◌≤◌, ◌<◌, ◌≡◌, refl, ◌⊎◌, inl, inr, List, [], ◌∷◌, ◌++◌, Text, text_eq, length,
  length-append, length-map, leb, ◌==◌, sum_by, All, arith, Bool-cases, Option-cases,
}
use ghost_protocol.Prelude.Sorting.{sort_by, All-sort_by}
use ghost_protocol.Store.{ok, Result-cases}
use ghost_protocol.Env.{Env}
use ghost_protocol.Credits.{normalize_address_key}
use ghost_protocol.Settlement.Rollup.{
  RollupSourceRow, RollupConfig, RollupCandidate, compare_rows, Groups, add_row, normalize_row,
  group_rows, release_reason_of, candidate, release_groups, compare_candidates,
  build_merchant_settlement_rollup_candidates,
}

-- A row whose fee and net make up its gross amount.
abbrev pub IsBalanced : RollupSourceRow → Type 0
IsBalanced r = r.fee_wei + r.net_wei ≡ r.gross_wei

pub record IsDue (config : RollupConfig) (now : ℕ) (c : RollupCandidate) : Type 0 where
  pub some_rows : 0 < c.earning_count
  pub bounded : c.earning_count ≤ config.max_earnings_per_rollup
  pub listed : length c.earning_ids ≡ c.earning_count
  pub balanced : c.fee_wei + c.net_wei ≡ c.gross_wei
  pub due : (config.min_fee_wei ≤ c.fee_wei) ⊎ (c.oldest_created_at + config.max_age_ms ≤ now)

-- An entry of the Map.
abbrev IsGroup : ℕ → Text × List RollupSourceRow → Type 0
IsGroup max g = (length g.1 ≤ max) × All IsBalanced g.1

All-snoc :
    (rows : List RollupSourceRow) (row : RollupSourceRow)
    → All IsBalanced rows
    → IsBalanced row
    → All IsBalanced (rows ++ row ∷ [])
All-snoc [] row h b = (b, tt)
All-snoc (r ∷ rs) row (h, hs) b = (h, All-snoc rs row hs b)

add_row-IsGroup :
    (max : ℕ) (owner : Text) (row : RollupSourceRow) (groups : Groups)
    → IsBalanced row
    → All (IsGroup max) groups
    → All (IsGroup max) (add_row max owner row groups)
unfolding add_row
add_row-IsGroup max owner row [] b h = elim (Bool-cases (leb max 0)) [
  | inl never ↦ rw never tt
  | inr room ↦ rw room ((ground arith, (b, tt)), tt)
]
add_row-IsGroup max owner row ((key, rows) ∷ groups) b ((short, fair), h) =
    elim (Bool-cases (text_eq key owner)) [
      | inr other ↦ rw other ((short, fair), add_row-IsGroup max owner row groups b h)
      | inl same ↦ elim (Bool-cases (leb max (length rows))) [
        | inl full ↦ rw (same, full) ((short, fair), h)
        | inr room ↦
            rw (same, room)
              ((ground (arith, length-append rows (row ∷ [])), All-snoc rows row fair b), h)
      ]
    ]

group_rows-IsGroup :
    (env : Env) (max : ℕ) (rows : List RollupSourceRow) (groups : Groups) {out : Groups}
    → All IsBalanced rows
    → All (IsGroup max) groups
    → group_rows env max rows groups ≡ ok out
    → All (IsGroup max) out
unfolding group_rows
group_rows-IsGroup env max [] groups {out} b h e =
    let same : groups ≡ out = ground arith in subst (All (IsGroup max)) same h
group_rows-IsGroup env max (row ∷ rows) groups {out} (b, bs) h e =
    elim (Result-cases (normalize_address_key env row.merchant_owner_address)) [
      | inl (bad, refused) ↦ absurd (ground arith)
      | inr (owner, known) ↦
          group_rows-IsGroup env max rows (add_row max owner (normalize_row owner row) groups)
            {out = out} bs (add_row-IsGroup max owner (normalize_row owner row) groups b h)
            (ground arith)
    ]

sum_by-balanced :
    (rows : List RollupSourceRow)
    → All IsBalanced rows
    → sum_by (λ r. r.fee_wei) rows + sum_by (λ r. r.net_wei) rows ≡ sum_by (λ r. r.gross_wei) rows
unfolding sum_by
sum_by-balanced [] h = refl
sum_by-balanced (r ∷ rs) (h, hs) = ground (arith, sum_by-balanced rs hs)

release_groups-IsDue :
    (config : RollupConfig) (now : ℕ) (groups : Groups)
    → All (IsGroup config.max_earnings_per_rollup) groups
    → All (IsDue config now) (release_groups config now groups)
unfolding release_groups release_reason_of
release_groups-IsDue config now [] h = tt
release_groups-IsDue config now ((owner, []) ∷ groups) (g, h) =
    release_groups-IsDue config now groups h
release_groups-IsDue config now ((owner, row ∷ rows) ∷ groups) ((short, fair), h) =
    let rest = release_groups-IsDue config now groups h in
    let fees = sum_by (λ (r : RollupSourceRow). r.fee_wei) (row ∷ rows) in
    elim (Option-cases (release_reason_of config now fees row.created_at)) [
      | inl later ↦
          let kept : release_groups config now groups
              ≡ release_groups config now ((owner, row ∷ rows) ∷ groups) =
            ground arith in
          subst (All (IsDue config now)) kept rest
      | inr (reason, due) ↦
          let built : candidate owner row rows reason ∷ release_groups config now groups
              ≡ release_groups config now ((owner, row ∷ rows) ∷ groups) =
            ground arith in
          subst (All (IsDue config now)) built (
            record {
              some_rows = ground arith;
              bounded = short;
              listed = length-map (λ (r : RollupSourceRow). r.id) (row ∷ rows);
              balanced = sum_by-balanced (row ∷ rows) fair;
              due = ground arith;
            },
            rest,
          )
    ]

-- If every row's fee and net make up its gross amount, then each rollup that
-- buildMerchantSettlementRollupCandidates proposes has at least one and at most the configured number of
-- earnings, names as many as it counts, has fee and net amounts that make up its gross amount, and has
-- either the least fee or an earning as old as the greatest age.
pub build_merchant_settlement_rollup_candidates-IsDue :
    (env : Env) (rows : List RollupSourceRow) (config : RollupConfig) (now : ℕ)
    {cs : List RollupCandidate}
    → All IsBalanced rows
    → build_merchant_settlement_rollup_candidates env rows config now ≡ ok cs
    → All (IsDue config now) cs
unfolding build_merchant_settlement_rollup_candidates
build_merchant_settlement_rollup_candidates-IsDue env rows config now {cs} b e =
    elim (Bool-cases (config.max_earnings_per_rollup == 0)) [
      | inl never ↦
          let none_built : [] ≡ cs = ground arith in subst (All (IsDue config now)) none_built tt
      | inr some_built ↦
          elim (Result-cases
            (group_rows env config.max_earnings_per_rollup (sort_by (compare_rows env) rows) [])) [
              | inl (bad, refused) ↦ absurd (ground arith)
              | inr (groups, grouped) ↦
                  let built : sort_by (compare_candidates env) (release_groups config now groups)
                      ≡ cs =
                    ground arith in
                  subst (All (IsDue config now)) built (
                    All-sort_by (compare_candidates env) (IsDue config now) _ (
                      release_groups-IsDue config now groups (
                        group_rows-IsGroup env config.max_earnings_per_rollup
                          (sort_by (compare_rows env) rows) []
                          (All-sort_by (compare_rows env) IsBalanced rows b) tt grouped)))
            ]
    ]
