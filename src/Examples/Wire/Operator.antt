-- ===== src/Examples/Wire/Operator.antt =====
-- Runs of the operator: a job's artifacts, its passes, the scan of the chain's logs, and a webhook that fails.
use ghost_protocol.Prelude.{
  ℕ, ◌+◌, ◌≤◌, ◌≡◌, refl, Bool, true, false, Option, none, some, List, [], ◌∷◌, Text, codes, arith,
  find, length,
}
use ghost_protocol.Store.{ok}
use ghost_protocol.Wire.Schema.{
  WireDb, WireJob, WireWebhookOutbox, valid, job_open, job_funded, job_submitted, job_completed,
}
use ghost_protocol.Examples.Wire.{cfg, opened, opened_db, hash}
use ghost_protocol.Wire.Artifacts.Kept.{
  IsProper, ArtifactsStay, record_wire_job_execution_artifacts-ArtifactsStay,
}
use ghost_protocol.Wire.Operator.Passes.{IsLife, Pass, run_passes, run_passes-Follows}
use ghost_protocol.Wire.Artifacts.{
  record_job, Artifacts, record_wire_job_execution_artifacts, record_workflow,
}
use ghost_protocol.Wire.Scan.{Log, LifecycleEvent, get_latest_lifecycle_event, event_of}
use ghost_protocol.Wire.Tables.{has_job_id, is_event}
use ghost_protocol.Wire.Operator.{process_workflow_job, ChainView, receipt, confirmed_terminal}
use ghost_protocol.Wire.Operator.Moves.{Follows}
use ghost_protocol.Wire.Outbox.{
  Attempt, webhook_base_retry_delay_ms, thrown, next_webhook_retry_at, attempt_all,
  webhook_max_retry_delay_ms, awaits, webhook_max_attempts,
}
use ghost_protocol.Wire.Operator.Listed.{IsListed}
use ghost_protocol.Wire.Reconcile.{fund_job, settle_funded_workflow}
use ghost_protocol.Wire.Operator.CatchesUp.{Reached, process_workflow_job-Reached}
use ghost_protocol.Wire.Prepare.{outbox_row, workflow_of}
use ghost_protocol.Wire.Scan.Latest.{IsLatest, get_latest_lifecycle_event-IsLatest}
use ghost_protocol.Wire.Terms.{build_wire_open_webhook_event_id, build_open_webhook_payload}
use ghost_protocol.Wire.Lifecycle.{next, here, to_funded, to_submitted, to_completed}
use ghost_protocol.Wire.Outbox.Retries.{next_webhook_retry_at-bounds, attempt_all-ends}

abbrev artifacts : Artifacts
artifacts = record {
  contract_address = some (codes "0xF0");
  contract_job_id = some (codes "7");
  create_tx_hash = some hash;
  create_tx_sender = some (codes "0xc");
  fund_tx_hash = some hash;
  fund_tx_sender = some (codes "0xc");
  artifact_validation_state = some valid;
  artifact_validation_error = none;
  artifact_status = none;
  create_status = none;
  fund_status = none;
  confirmation_status = none;
  reconcile_status = none;
  artifact_checked_at = none;
  artifact_last_checked_block = none;
}

abbrev recorded : WireJob
recorded = record_job 2500 artifacts opened opened

abbrev recorded_db : WireDb
recorded_db =
    (record_wire_job_execution_artifacts 2500 (λ d. d) (codes "wj_1") artifacts opened_db).1

recorded_lem :
    record_wire_job_execution_artifacts 2600 (λ d. d) (codes "wj_1") artifacts recorded_db ≡ (
      ok (record_job 2600 artifacts recorded recorded),
      (record_wire_job_execution_artifacts 2600 (λ d. d) (codes "wj_1") artifacts recorded_db).1,
    )
unfolding record_wire_job_execution_artifacts find opened_db ghost_protocol.Prelude.text_eq
    ghost_protocol.Examples.Wire.quoted ghost_protocol.Prelude.update
    ghost_protocol.Prelude.to_lower_case
recorded_lem = refl

artifacts-IsProper : IsProper artifacts
artifacts-IsProper = record {
  contract_address = refl;
  contract_job_id = refl;
  create_tx_hash = refl;
  create_tx_sender = refl;
  fund_tx_hash = refl;
  fund_tx_sender = refl;
}

recorded-IsListed : IsListed recorded_db recorded
unfolding find record_wire_job_execution_artifacts opened_db ghost_protocol.Prelude.text_eq
    ghost_protocol.Examples.Wire.quoted ghost_protocol.Prelude.update
recorded-IsListed = record {
  workflow =
      record_workflow 2500 artifacts (some (workflow_of (codes "r1"))) (workflow_of (codes "r1"));
  by_id = refl;
  by_job_id = refl;
  has_workflow = refl;
}

record_wire_job_execution_artifacts-ArtifactsStay_example :
    (stored : WireJob) × (find
        (has_job_id (codes "wj_1"))
        (record_wire_job_execution_artifacts 2600
          (λ d. d)
          (codes "wj_1")
          artifacts
          recorded_db).1.jobs
      ≡ some stored)
    × ArtifactsStay recorded stored
unfolding record_wire_job_execution_artifacts opened
record_wire_job_execution_artifacts-ArtifactsStay_example =
    record_wire_job_execution_artifacts-ArtifactsStay 2600 (λ d. d) artifacts recorded_db recorded
      artifacts-IsProper recorded-IsListed.by_job_id recorded-IsListed recorded_lem

-- A request that reports the creation alone, and is overtaken by one that reports both.
abbrev creation : Artifacts
creation = record artifacts { fund_tx_hash = none; fund_tx_sender = none }

abbrev overtaken : WireDb → WireDb
overtaken d = (record_wire_job_execution_artifacts 2500 (λ d. d) (codes "wj_1") artifacts d).1

abbrev late_db : WireDb
late_db = (record_wire_job_execution_artifacts 2600 overtaken (codes "wj_1") creation opened_db).1

abbrev logs : List Log
logs =
    record { state = job_submitted; tx_hash = hash; block_number = 100; log_index = 4 }
    ∷ record { state = job_completed; tx_hash = hash; block_number = 300; log_index = 1 }
    ∷ []

-- The last event lies two ranges below the latest block.
get_latest_lifecycle_event-IsLatest_example :
    (answer : Option LifecycleEvent) × (get_latest_lifecycle_event 20_000 logs ≡ some answer)
    × IsLatest 20_000 logs answer
get_latest_lifecycle_event-IsLatest_example = get_latest_lifecycle_event-IsLatest 20_000 logs

abbrev number_text : ℕ → Text
number_text n = codes "n"

abbrev funded_chain : ChainView
funded_chain = record {
  fund_receipt = receipt true 50 9;
  onchain_status = ok 1;
  latest_block = 58;
  logs = [];
}

abbrev completed_chain : ChainView
completed_chain = record {
  fund_receipt = receipt true 50 19_951;
  onchain_status = ok 3;
  latest_block = 20_000;
  logs = logs;
}

abbrev passes : List Pass
passes =
    record { now = 3000; chain = funded_chain; onchain = job_funded }
    ∷ record { now = 4000; chain = completed_chain; onchain = job_completed }
    ∷ []

passes-IsLife : IsLife job_open passes
unfolding ghost_protocol.Wire.Operator.map_contract_status
passes-IsLife = (
  record {
    status = 1;
    answered = refl;
    mapped = refl;
    later = next here to_funded;
    funded = λ block n e. here;
  },
  (
    record {
      status = 3;
      answered = refl;
      mapped = refl;
      later = next (next here to_submitted) to_completed;
      funded = λ block n e. next (next here to_submitted) to_completed;
    },
    tt,
  ),
)

run_passes-Follows_example :
    Follows recorded job_completed (run_passes cfg number_text (codes "wj_1") passes recorded_db)
unfolding opened
run_passes-Follows_example =
    run_passes-Follows cfg number_text passes recorded_db recorded job_open recorded-IsListed here
      passes-IsLife

-- The job once its funding has been confirmed.
abbrev funded : WireJob
funded = fund_job 3000 recorded

abbrev funded_db : WireDb
funded_db = (process_workflow_job cfg number_text 3000 funded_chain recorded recorded_db).1

funded-IsListed : IsListed funded_db funded
unfolding find process_workflow_job opened ghost_protocol.Prelude.to_lower_case
    ghost_protocol.Prelude.trim record_wire_job_execution_artifacts opened_db
    ghost_protocol.Prelude.text_eq ghost_protocol.Prelude.update
funded-IsListed = record {
  workflow =
      settle_funded_workflow 3000 (
        record_workflow 2500 artifacts (some (workflow_of (codes "r1")))
          (workflow_of (codes "r1")));
  by_id = refl;
  by_job_id = refl;
  has_workflow = refl;
}

process_workflow_job-Reached_example :
    Reached funded job_completed confirmed_terminal
      (process_workflow_job cfg number_text 4000 completed_chain funded funded_db)
unfolding ghost_protocol.Wire.Operator.map_contract_status get_latest_lifecycle_event
    ghost_protocol.Prelude.select ghost_protocol.Wire.Config.resolve_min_confirmations opened
process_workflow_job-Reached_example =
    process_workflow_job-Reached cfg number_text 4000 completed_chain funded_db funded job_completed
      {status = 3}
      {event = event_of 20_000
        (record { state = job_completed; tx_hash = hash; block_number = 300; log_index = 1 })}
      funded-IsListed refl refl refl refl refl refl refl (omega arith)

abbrev no_answer : Attempt
no_answer = record {
  now = 9000;
  target_url = some (codes "https://a");
  webhook_secret = some (codes "s");
  response = thrown (codes "timeout");
}

abbrev tries : List Attempt
tries = no_answer ∷ no_answer ∷ no_answer ∷ no_answer ∷ no_answer ∷ no_answer ∷ no_answer ∷ []

abbrev open_event : WireWebhookOutbox
open_event =
    outbox_row 2000 (build_wire_open_webhook_event_id (codes "wj_1")) opened (codes "wire.job.open")
      job_open (build_open_webhook_payload cfg opened)

attempt_all-ends_example :
    (row' : WireWebhookOutbox) × (find
        (is_event open_event.event_id)
        (attempt_all number_text open_event.event_id tries opened_db).outbox
      ≡ some row')
    × (awaits row'.delivery_status ≡ false)
    × (row'.attempt_count ≤ webhook_max_attempts)
unfolding find opened_db ghost_protocol.Prelude.text_eq ghost_protocol.Examples.Wire.quoted
attempt_all-ends_example =
    attempt_all-ends number_text open_event.event_id tries opened_db {row = open_event} refl refl
      (omega arith)

next_webhook_retry_at-bounds_example :
    (9000 + webhook_base_retry_delay_ms ≤ next_webhook_retry_at 9000 3)
    × (next_webhook_retry_at 9000 3 ≤ 9000 + webhook_max_retry_delay_ms)
    × (next_webhook_retry_at 9000 3 ≤ next_webhook_retry_at 9000 (3 + 1))
next_webhook_retry_at-bounds_example = next_webhook_retry_at-bounds 9000 3
