-- ===== src/Examples/Wire.antt =====
-- Runs on escrowed jobs: a quote, its job, the operator's passes, the chain's logs, and a webhook.
pub mod Operator
use ghost_protocol.Prelude.{
  ℕ, ◌+◌, ◌≤◌, ◌≡◌, ◌⊎◌, refl, Bool, true, false, not, Option, none, some, List, [], ◌∷◌, Text,
  codes, arith, find, length,
}
use ghost_protocol.Store.{ok, err, Result, Error}
use ghost_protocol.Wire.Schema.{WireDb, WireJob, WireQuote, TerminalSettlement, completed}
use ghost_protocol.Wire.Quotes.{PrepareInput, QuoteInput, quote_of}
use ghost_protocol.Wire.Prepare.{Fresh, prepare_wire_job_from_quote, job_of}
use ghost_protocol.Wire.Prepare.Once.{Opened, prepare_wire_job_from_quote-Opened}
use ghost_protocol.Wire.Config.{WireSettings}
use ghost_protocol.Wire.Terms.{calculate_protocol_fee_amount}
use ghost_protocol.Wire.History.Evolves.{IsSound}
use ghost_protocol.Wire.History.{
  call_then, no_calls, run_all, WireCalls, funded_call, create_quote_call, prepare_call,
  submitted_call, terminal_call,
}
use ghost_protocol.Wire.Reconcile.{end_job, Confirmation, submit_job, fund_job}
use ghost_protocol.Wire.Tables.{has_job_id, has_quote_id}
use ghost_protocol.Wire.Terms.Shares.{IsShared}
use ghost_protocol.Wire.Touches.{SameTerms}
use ghost_protocol.Wire.History.Once.{
  run_all-IsSound, run_all-IsShared, run_all-SameTerms, prepare_wire_job_from_quote-once,
}

abbrev pub cfg : WireSettings
cfg = record {
  protocol_fee_bps_env = none;
  quote_ttl_seconds = 600;
  job_expiry_seconds = 86_400;
  min_confirmations_mainnet = 2;
  min_confirmations_testnet = 1;
  normalize_request_payload = λ t. some t;
}

abbrev pub quote_request : QuoteInput
quote_request = record {
  client_address = codes "0xc";
  provider_address = codes "0xd";
  provider_agent_id = none;
  provider_service_slug = none;
  evaluator_address = codes "0xe";
  chain_id = 8453;
  principal_amount = 1_000_000;
  ttl_seconds = none;
}

abbrev pub quoted : WireQuote
unfolding calculate_protocol_fee_amount
quoted = quote_of cfg (codes "wq_1") 1000 quote_request

abbrev pub quoted_db : WireDb
quoted_db = record {
  quotes = quoted ∷ [];
  jobs = [];
  workflows = [];
  transitions = [];
  spends = [];
  outbox = [];
}

abbrev pub job_request : PrepareInput
job_request = record {
  quote_id = codes "wq_1";
  client_address = codes "0xc";
  provider_address = codes "0xd";
  provider_agent_id = none;
  provider_service_slug = none;
  evaluator_address = codes "0xe";
  spec_hash = codes "0x5";
  request_payload = none;
  metadata_uri = none;
  webhook_target_url = some (codes "https://a");
  webhook_secret = some (codes "s");
}

abbrev pub fresh : Fresh
fresh = record { row_id = codes "r1"; job_id = codes "wj_1"; now = 2000 }

abbrev pub paid_up : WireQuote → Result Bool
paid_up quote = ok true

abbrev pub alone : WireDb → WireDb
alone db = db

abbrev pub opened : WireJob
unfolding calculate_protocol_fee_amount
opened = job_of cfg fresh job_request quoted

abbrev pub opened_db : WireDb
unfolding prepare_wire_job_from_quote
opened_db = (prepare_wire_job_from_quote cfg 1500 paid_up alone fresh job_request quoted_db).1

opened_lem :
    prepare_wire_job_from_quote cfg 1500 paid_up alone fresh job_request quoted_db
    ≡ (ok opened, opened_db)
unfolding prepare_wire_job_from_quote find ghost_protocol.Prelude.text_eq quoted
opened_lem = refl

prepare_wire_job_from_quote-Opened_example : Opened cfg fresh job_request quoted_db opened opened_db
prepare_wire_job_from_quote-Opened_example =
    prepare_wire_job_from_quote-Opened cfg 1500 paid_up alone fresh job_request quoted_db opened_lem

abbrev pub quote_later : WireCalls
quote_later = call_then (create_quote_call (codes "wq_2") 3000 quote_request) no_calls

prepare_wire_job_from_quote-once_example :
    (x : Error) × ((prepare_wire_job_from_quote cfg 4000 paid_up
          (run_all cfg no_calls)
          fresh
          job_request
          (run_all cfg quote_later opened_db)
        ≡ (err x, run_all cfg quote_later opened_db))
      ⊎ (prepare_wire_job_from_quote cfg 4000 paid_up
            (run_all cfg no_calls)
            fresh
            job_request
            (run_all cfg quote_later opened_db)
          ≡ (err x, run_all cfg no_calls (run_all cfg quote_later opened_db))))
prepare_wire_job_from_quote-once_example =
    prepare_wire_job_from_quote-once cfg 1500 paid_up alone fresh job_request quoted_db opened_lem
      quote_later 4000 paid_up no_calls fresh job_request refl

abbrev pub hash : Text
hash = codes "0x0123456789abcdef0123456789abcdef0123456789abcdef0123456789abcdef"

abbrev pub seen : ℕ → Confirmation
seen now = record {
  tx_hash = some hash;
  confirmed_at = now;
  block_number = 50;
  confirmations = 3;
  log_index = some 0;
}

abbrev pub empty_db : WireDb
empty_db = record quoted_db { quotes = [] }

-- A quote, its job, and the three confirmations of a job that is completed.
abbrev pub whole_life : WireCalls
whole_life = call_then (create_quote_call (codes "wq_1") 1000 quote_request) (
    call_then (prepare_call no_calls 1500 paid_up fresh job_request) (
      call_then (funded_call 3000 (codes "wj_1") hash (seen 3000)) (
        call_then (submitted_call 4000 (codes "wj_1") (seen 4000))
          (call_then (terminal_call 5000 (codes "wj_1") completed (seen 5000)) no_calls))))

empty_db-IsSound : IsSound cfg empty_db
empty_db-IsSound = record { priced = tt; backed = tt }

run_all-IsSound_example : IsSound cfg (run_all cfg whole_life empty_db)
run_all-IsSound_example = run_all-IsSound cfg whole_life empty_db empty_db-IsSound

abbrev pub ended : WireJob
unfolding calculate_protocol_fee_amount
ended = end_job 5000 completed (some hash) (submit_job 4000 (fund_job 3000 opened))

abbrev pub shares : TerminalSettlement
shares = record {
  provider_payout = 975_000;
  protocol_revenue = 25_000;
  actual_network_spend = 0;
  unused_network_reserve_refund = 0;
}

run_all-IsShared_example :
    (quote : WireQuote) × (find
        (has_quote_id ended.quote_id)
        (run_all cfg whole_life empty_db).quotes
      ≡ some quote)
    × IsShared (some completed) quote.principal_amount quote.network_reserve_amount [] shares
unfolding find run_all ghost_protocol.Wire.Reconcile.reconcile_wire_job_terminal_state
    ghost_protocol.Wire.Reconcile.reconcile_wire_job_submitted_state
    ghost_protocol.Wire.Reconcile.reconcile_wire_job_funded_state prepare_wire_job_from_quote
    ghost_protocol.Wire.Quotes.create_wire_quote ghost_protocol.Prelude.text_eq
    ghost_protocol.Prelude.update ghost_protocol.Wire.Config.protocol_fee_bps
    ghost_protocol.Prelude.sum_by
run_all-IsShared_example =
    run_all-IsShared cfg whole_life empty_db (codes "wj_1") [] {job = ended} {t = shares}
      empty_db-IsSound refl refl

abbrev pub funding : WireCalls
funding = call_then (funded_call 3000 (codes "wj_1") hash (seen 3000)) no_calls

run_all-SameTerms_example :
    (job' : WireJob) × (find (has_job_id (codes "wj_1")) (run_all cfg funding opened_db).jobs
      ≡ some job')
    × SameTerms opened job'
unfolding find opened_db ghost_protocol.Prelude.text_eq quoted
run_all-SameTerms_example =
    run_all-SameTerms cfg funding opened_db (codes "wj_1") {job = opened} refl
