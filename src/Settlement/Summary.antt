-- ===== src/Settlement/Summary.antt =====
-- lib/db.ts, getMerchantSettlementSummary: earnings in scope, counted and summed by status.
pub mod Partition
use ghost_protocol.Prelude.{
  ℕ, Bool, true, false, ◌&&◌, ◌||◌, not, Option, none, some, List, [], ◌∷◌, Text, option_text_eq,
  text_eq, trim_or_null, is_empty, is_some, leb, if◌then◌else◌, select, count, sum_by, some_of,
  ◌++◌,
}
use ghost_protocol.Prelude.Sorting.{sort_by}
use ghost_protocol.Store.{
  SettlementStatus, pending, submitted, confirmed, failed, MerchantEarning, Db, Result, ok, err,
}
use ghost_protocol.Env.{Env}
use ghost_protocol.Credits.{normalize_address_key}

pub record SummaryInput : Type 0 where
  pub merchant_owner_address : Option Text
  pub agent_id : Option Text
  pub service_slug : Option Text
  pub created_at_gte : Option ℕ

pub record StatusSummary : Type 0 where
  pub count_all : ℕ
  pub gross_wei : ℕ
  pub fee_wei : ℕ
  pub net_wei : ℕ
  pub oldest_created_at : Option ℕ

pub record SettlementSummary : Type 0 where
  pub scope_owner : Option Text
  pub scope_agent : Option Text
  pub scope_service : Option Text
  pub pending_earnings : StatusSummary
  pub submitted_earnings : StatusSummary
  pub confirmed_earnings : StatusSummary
  pub failed_earnings : StatusSummary

-- `if (input.merchantOwnerAddress)` with normalizeSignerKey, which throws on a bad address.
unfoldable pub scope_owner_of : Env → Option Text → Result (Option Text)
scope_owner_of env none = ok none
scope_owner_of env (some owner) =
    if is_empty owner
    then ok none
    else elim (normalize_address_key env owner) [ ok key ↦ ok (some key) | err e ↦ err e ]

abbrev pub owner_matches : Option Text → MerchantEarning → Bool
owner_matches none e = true
owner_matches (some key) e = text_eq e.merchant_owner_address key

-- An agent and a service: the agent's earnings, and those of no agent at the service.
abbrev pub agent_matches : Option Text → Option Text → MerchantEarning → Bool
agent_matches none none e = true
agent_matches (some agent) none e = option_text_eq e.agent_id (some agent)
agent_matches none (some service) e = text_eq e.service_slug service
agent_matches (some agent) (some service) e =
    option_text_eq e.agent_id (some agent)
    || (not (is_some e.agent_id) && text_eq e.service_slug service)

abbrev pub since_matches : Option ℕ → MerchantEarning → Bool
since_matches none e = true
since_matches (some since) e = leb since e.created_at

-- The where clause, with the owner's key.
unfoldable pub build_merchant_settlement_where : SummaryInput → Option Text → MerchantEarning → Bool
build_merchant_settlement_where input owner e =
    owner_matches owner e
    && agent_matches (trim_or_null input.agent_id) (trim_or_null input.service_slug) e
    && since_matches input.created_at_gte e

abbrev pub status_eq : SettlementStatus → SettlementStatus → Bool
status_eq pending pending = true
status_eq submitted submitted = true
status_eq confirmed confirmed = true
status_eq failed failed = true
status_eq _ _ = false

abbrev pub of_status : (MerchantEarning → Bool) → SettlementStatus → MerchantEarning → Bool
of_status p s e = p e && status_eq e.status s

-- A row of groupBy: `_count._all` and the three `_sum`s.
pub record StatusGroup : Type 0 where
  pub status : SettlementStatus
  pub count_all : ℕ
  pub gross_wei : ℕ
  pub fee_wei : ℕ
  pub net_wei : ℕ

abbrev pub group_of : (MerchantEarning → Bool) → SettlementStatus → Db → StatusGroup
group_of p s db =
    let rows = select (of_status p s) db.earnings in
    record {
      status = s;
      count_all = count (of_status p s) db.earnings;
      gross_wei = sum_by (λ e. e.gross_wei) rows;
      fee_wei = sum_by (λ e. e.fee_wei) rows;
      net_wei = sum_by (λ e. e.net_wei) rows;
    }

-- A status with no row has no group.
unfoldable pub group_if : (MerchantEarning → Bool) → SettlementStatus → Db → List StatusGroup
group_if p s db = if some_of (of_status p s) db.earnings then group_of p s db ∷ [] else []

-- `groupBy` by status: one group for each status that occurs.
unfoldable pub group_by_status : (MerchantEarning → Bool) → Db → List StatusGroup
unfolding group_if
group_by_status p db =
    group_if p pending db
    ++ (group_if p submitted db ++ (group_if p confirmed db ++ (group_if p failed db ++ [])))

abbrev pub empty_status_summary : StatusSummary
empty_status_summary = record {
  count_all = 0;
  gross_wei = 0;
  fee_wei = 0;
  net_wei = 0;
  oldest_created_at = none;
}

pub record Buckets : Type 0 where
  pub pending_bucket : StatusSummary
  pub submitted_bucket : StatusSummary
  pub confirmed_bucket : StatusSummary
  pub failed_bucket : StatusSummary

abbrev pub empty_buckets : Buckets
empty_buckets = record {
  pending_bucket = empty_status_summary;
  submitted_bucket = empty_status_summary;
  confirmed_bucket = empty_status_summary;
  failed_bucket = empty_status_summary;
}

abbrev pub put_totals : StatusGroup → StatusSummary → StatusSummary
put_totals row bucket = record bucket {
  count_all = row.count_all;
  gross_wei = row.gross_wei;
  fee_wei = row.fee_wei;
  net_wei = row.net_wei;
}

-- The bucket that the chain of conditionals picks.
abbrev pub put_group : StatusGroup → SettlementStatus → Buckets → Buckets
put_group row pending b = record b { pending_bucket = put_totals row b.pending_bucket }
put_group row submitted b = record b { submitted_bucket = put_totals row b.submitted_bucket }
put_group row confirmed b = record b { confirmed_bucket = put_totals row b.confirmed_bucket }
put_group row failed b = record b { failed_bucket = put_totals row b.failed_bucket }

unfoldable pub fill_buckets : List StatusGroup → Buckets → Buckets
fill_buckets [] b = b
fill_buckets (row ∷ rows) b = fill_buckets rows (put_group row row.status b)

abbrev pub first_created : List MerchantEarning → Option ℕ
first_created [] = none
first_created (e ∷ es) = some e.created_at

-- `findFirst` of one status, by creation.
unfoldable pub oldest_of : (MerchantEarning → Bool) → SettlementStatus → Db → Option ℕ
oldest_of p s db =
    first_created
      (sort_by (λ a b. leb a.created_at b.created_at) (select (of_status p s) db.earnings))

unfoldable pub summary_of : SummaryInput → Option Text → Db → SettlementSummary
unfolding group_by_status fill_buckets oldest_of build_merchant_settlement_where
summary_of input owner db =
    let p = build_merchant_settlement_where input owner in
    let b = fill_buckets (group_by_status p db) empty_buckets in
    record {
      scope_owner = owner;
      scope_agent = trim_or_null input.agent_id;
      scope_service = trim_or_null input.service_slug;
      pending_earnings = record b.pending_bucket { oldest_created_at = oldest_of p pending db };
      submitted_earnings = record b.submitted_bucket {
        oldest_created_at = oldest_of p submitted db;
      };
      confirmed_earnings = record b.confirmed_bucket {
        oldest_created_at = oldest_of p confirmed db;
      };
      failed_earnings = record b.failed_bucket { oldest_created_at = oldest_of p failed db };
    }

unfoldable pub get_merchant_settlement_summary : Env → SummaryInput → Db → Result SettlementSummary
unfolding scope_owner_of summary_of
get_merchant_settlement_summary env input db =
    elim (scope_owner_of env input.merchant_owner_address) [
      | err e ↦ err e
      | ok owner ↦ ok (summary_of input owner db)
    ]
