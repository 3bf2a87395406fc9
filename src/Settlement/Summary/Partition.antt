-- ===== src/Settlement/Summary/Partition.antt =====
-- lib/db.ts, getMerchantSettlementSummary: what each of its four statuses counts and sums.
use mathlib.Core.Path.{subst}
use ghost_protocol.Prelude.{
  ℕ, ◌≡◌, refl, inl, inr, Bool, true, false, ◌&&◌, ◌||◌, not, Option, none, some, List, [], ◌∷◌,
  ◌++◌, Text, select, count, sum_by, some_of, arith, Bool-cases, is_some, text_eq, option_text_eq,
  leb, trim_or_null, ap, sym, ◌∙◌,
}
use ghost_protocol.Store.{
  SettlementStatus, pending, submitted, confirmed, failed, MerchantEarning, Db, ok, err,
  Result-cases,
}
use ghost_protocol.Env.{Env}
use ghost_protocol.Settlement.Summary.{
  SummaryInput, SettlementSummary, StatusSummary, scope_owner_of, build_merchant_settlement_where,
  status_eq, of_status, summary_of, get_merchant_settlement_summary, StatusGroup, group_of,
  group_if, group_by_status, Buckets, empty_buckets, empty_status_summary, put_totals, put_group,
  fill_buckets, agent_matches, owner_matches, since_matches,
}

-- The wanted text, where one is wanted.
abbrev meets : Option Text → Option Text → Bool
meets none column = true
meets (some wanted) none = false
meets (some wanted) (some t) = text_eq t wanted

abbrev not_before : Option ℕ → ℕ → Bool
not_before none at = true
not_before (some since) at = leb since at

-- An earning is in scope if it is the owner's, is the agent's or, having no agent, at the service (a
-- service alone takes every earning at it), and is not too old.
abbrev pub of_agent_or_service : Option Text → Option Text → Option Text → Text → Bool
of_agent_or_service agent service id slug =
    (is_some agent && meets agent id)
    || (is_some service && meets service (some slug) && (not (is_some agent) || not (is_some id)))
    || (not (is_some agent) && not (is_some service))

abbrev pub in_scope : SummaryInput → Option Text → MerchantEarning → Bool
in_scope input owner e =
    meets owner (some e.merchant_owner_address)
    && of_agent_or_service (trim_or_null input.agent_id) (trim_or_null input.service_slug)
        e.agent_id e.service_slug
    && not_before input.created_at_gte e.created_at

owner_matches-meets :
    (owner : Option Text) (e : MerchantEarning)
    → owner_matches owner e ≡ meets owner (some e.merchant_owner_address)
owner_matches-meets none e = refl
owner_matches-meets (some key) e = refl

since_matches-not_before :
    (since : Option ℕ) (e : MerchantEarning) → since_matches since e ≡ not_before since e.created_at
since_matches-not_before none e = refl
since_matches-not_before (some t) e = refl

option_text_eq-meets :
    (a : Text) (id : Option Text) → option_text_eq id (some a) ≡ meets (some a) id
unfolding option_text_eq
option_text_eq-meets a none = refl
option_text_eq-meets a (some t) = refl

agent_matches-of_agent_or_service :
    (agent service : Option Text) (e : MerchantEarning)
    → agent_matches agent service e ≡ of_agent_or_service agent service e.agent_id e.service_slug
agent_matches-of_agent_or_service none none e = refl
agent_matches-of_agent_or_service (some a) none e =
    ground (arith, option_text_eq-meets a e.agent_id)
agent_matches-of_agent_or_service none (some s) e = ground arith
agent_matches-of_agent_or_service (some a) (some s) e =
    ground (arith, option_text_eq-meets a e.agent_id)

build_where-in_scope :
    (input : SummaryInput) (owner : Option Text) (e : MerchantEarning)
    → build_merchant_settlement_where input owner e ≡ in_scope input owner e
unfolding build_merchant_settlement_where
build_where-in_scope input owner e = rw (
  (owner_matches-meets owner e),
  (agent_matches-of_agent_or_service (trim_or_null input.agent_id) (trim_or_null input.service_slug)
      e),
  (since_matches-not_before input.created_at_gte e),
)

none_of-count : {A : Type 0} (p : A → Bool) (xs : List A) → some_of p xs ≡ false → count p xs ≡ 0
unfolding count
none_of-count p [] e = refl
none_of-count p (x ∷ xs) e = ground (arith, none_of-count p xs)

none_of-select : {A : Type 0} (p : A → Bool) (xs : List A) → some_of p xs ≡ false → select p xs ≡ []
unfolding select
none_of-select p [] e = refl
none_of-select p (x ∷ xs) e = ground (arith, none_of-select p xs)

group_of-none :
    (p : MerchantEarning → Bool) (s : SettlementStatus) (db : Db)
    → some_of (of_status p s) db.earnings ≡ false
    → put_totals (group_of p s db) empty_status_summary ≡ empty_status_summary
unfolding sum_by
group_of-none p s db e =
    rw (
      (none_of-count (of_status p s) db.earnings e),
      (none_of-select (of_status p s) db.earnings e),
    )

abbrev bucket_of : SettlementStatus → Buckets → StatusSummary
bucket_of pending b = b.pending_bucket
bucket_of submitted b = b.submitted_bucket
bucket_of confirmed b = b.confirmed_bucket
bucket_of failed b = b.failed_bucket

put_group-none :
    (row : StatusGroup) (s : SettlementStatus) (b : Buckets)
    → put_totals row (bucket_of s b) ≡ bucket_of s b
    → put_group row s b ≡ b
put_group-none row pending b e = ap (λ x. record b { pending_bucket = x }) e
put_group-none row submitted b e = ap (λ x. record b { submitted_bucket = x }) e
put_group-none row confirmed b e = ap (λ x. record b { confirmed_bucket = x }) e
put_group-none row failed b e = ap (λ x. record b { failed_bucket = x }) e

fill_buckets-group_if :
    (p : MerchantEarning → Bool) (s : SettlementStatus) (db : Db) (rest : List StatusGroup)
    (b : Buckets)
    → bucket_of s b ≡ empty_status_summary
    → fill_buckets (group_if p s db ++ rest) b ≡ fill_buckets rest (put_group (group_of p s db) s b)
unfolding fill_buckets group_if
fill_buckets-group_if p s db rest b e = elim (Bool-cases (some_of (of_status p s) db.earnings)) [
  | inl t ↦ rw t
  | inr f ↦
      let same : put_totals (group_of p s db) (bucket_of s b) ≡ bucket_of s b =
        subst (λ x. put_totals (group_of p s db) x ≡ x) (sym e) (group_of-none p s db f) in
      rw (f, (put_group-none (group_of p s db) s b same))
]

-- The totals of one status: the rows in scope of that status, counted and summed.
pub record Summarised (input : SummaryInput) (owner : Option Text) (db : Db) (s : SettlementStatus)
    (x : StatusSummary) : Type 0 where
  counted : x.count_all ≡ count (λ e. in_scope input owner e && status_eq e.status s) db.earnings
  gross :
      x.gross_wei
      ≡ sum_by
          (λ e. e.gross_wei)
          (select (λ e. in_scope input owner e && status_eq e.status s) db.earnings)
  fee :
      x.fee_wei
      ≡ sum_by
          (λ e. e.fee_wei)
          (select (λ e. in_scope input owner e && status_eq e.status s) db.earnings)
  net :
      x.net_wei
      ≡ sum_by
          (λ e. e.net_wei)
          (select (λ e. in_scope input owner e && status_eq e.status s) db.earnings)

-- All four statuses of a summary, each with its own rows.
pub record SummarisesAll (input : SummaryInput) (db : Db) (r : SettlementSummary) : Type 0 where
  of_pending : Summarised input r.scope_owner db pending r.pending_earnings
  of_submitted : Summarised input r.scope_owner db submitted r.submitted_earnings
  of_confirmed : Summarised input r.scope_owner db confirmed r.confirmed_earnings
  of_failed : Summarised input r.scope_owner db failed r.failed_earnings

fill_buckets-group_by_status :
    (p : MerchantEarning → Bool) (db : Db)
    → fill_buckets (group_by_status p db) empty_buckets
      ≡ put_group (group_of p failed db) failed (
          put_group (group_of p confirmed db) confirmed (
            put_group
              (group_of p submitted db)
              submitted
              (put_group (group_of p pending db) pending empty_buckets)))
unfolding fill_buckets group_by_status
fill_buckets-group_by_status p db =
    let b₁ = put_group (group_of p pending db) pending empty_buckets in
    let b₂ = put_group (group_of p submitted db) submitted b₁ in
    let b₃ = put_group (group_of p confirmed db) confirmed b₂ in
    fill_buckets-group_if p pending db _ empty_buckets refl
    ∙ fill_buckets-group_if p submitted db _ b₁ refl
    ∙ fill_buckets-group_if p confirmed db _ b₂ refl
    ∙ fill_buckets-group_if p failed db [] b₃ refl

Summarised-group_of :
    (input : SummaryInput) (owner : Option Text) (db : Db) (s : SettlementStatus)
    (x : StatusSummary) (oldest : Option ℕ)
    → x ≡ put_totals (group_of (in_scope input owner) s db) empty_status_summary
    → Summarised input owner db s (record x { oldest_created_at = oldest })
Summarised-group_of input owner db s x oldest e = record {
  counted = ap (λ y. y.count_all) e;
  gross = ap (λ y. y.gross_wei) e;
  fee = ap (λ y. y.fee_wei) e;
  net = ap (λ y. y.net_wei) e;
}

summary_of-SummarisesAll :
    (input : SummaryInput) (owner : Option Text) (db : Db)
    → SummarisesAll input db (summary_of input owner db)
unfolding summary_of
summary_of-SummarisesAll input owner db =
    let same : build_merchant_settlement_where input owner ≡ in_scope input owner =
      λ i e. build_where-in_scope input owner e i in
    let filled =
      ap (λ p. fill_buckets (group_by_status p db) empty_buckets) same
      ∙ fill_buckets-group_by_status (in_scope input owner) db in
    record {
      of_pending =
          Summarised-group_of input owner db pending _ _ (ap (λ b. b.pending_bucket) filled);
      of_submitted =
          Summarised-group_of input owner db submitted _ _ (ap (λ b. b.submitted_bucket) filled);
      of_confirmed =
          Summarised-group_of input owner db confirmed _ _ (ap (λ b. b.confirmed_bucket) filled);
      of_failed = Summarised-group_of input owner db failed _ _ (ap (λ b. b.failed_bucket) filled);
    }

-- The summary that getMerchantSettlementSummary answers has the requested owner as its scope, and each
-- of its four statuses counts, and sums the gross, the fee and the net of, exactly the earnings of
-- that status in scope.
pub get_merchant_settlement_summary-sums :
    (env : Env) (input : SummaryInput) (db : Db) {r : SettlementSummary}
    → get_merchant_settlement_summary env input db ≡ ok r
    → (scope_owner_of env input.merchant_owner_address ≡ ok r.scope_owner)
      × SummarisesAll input db r
unfolding get_merchant_settlement_summary
get_merchant_settlement_summary-sums env input db {r} e =
    elim (Result-cases (scope_owner_of env input.merchant_owner_address)) [
      | inr (owner, found) ↦
          let v : summary_of input owner db ≡ r =
            ap (λ x. elim x [ ok y ↦ y | err bad ↦ r ])
              (rw (get_merchant_settlement_summary, found) at e) in
          (
            found ∙ ap (λ x. ok x.scope_owner) v,
            subst (SummarisesAll input db) v (summary_of-SummarisesAll input owner db),
          )
      | inl (x, failed_with) ↦ ground arith
    ]
