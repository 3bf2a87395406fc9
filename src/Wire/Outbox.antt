-- ===== src/Wire/Outbox.antt =====
-- The webhook outbox: updateWireWebhookOutboxDelivery and the query for due events of
-- lib/ghostwire-store.ts, and deliverGhostWireWebhookEvent of lib/ghostwire-operator.ts. The answer of the
-- target is an argument.
pub mod Retries
use ghost_protocol.Prelude.{
  ℕ, ◌+◌, ◌-◌, ◌*◌, ◌^◌, min, Bool, true, false, ◌&&◌, ◌||◌, not, Option, none, some, List, Text,
  String, codes, leb, ltb, ◌==◌, is_some, take, select, trim_or_null, if◌then◌else◌, find, update,
  ◌++◌, ◌∷◌, is_empty, [],
}
use ghost_protocol.Prelude.Sorting.{sort_by}
use ghost_protocol.Store.{Result, ok, err, record_not_found}
use ghost_protocol.Wire.Schema.{
  WireDb, WireWebhookOutbox, WireWebhookDeliveryStatus, dead_letter, undelivered, delivered,
  delivery_failed,
}
use ghost_protocol.Wire.Tables.{W, is_event}

abbrev pub webhook_max_attempts : ℕ
webhook_max_attempts = 6

abbrev pub webhook_base_retry_delay_ms : ℕ
webhook_base_retry_delay_ms = 60_000

abbrev pub webhook_max_retry_delay_ms : ℕ
webhook_max_retry_delay_ms = 1_800_000

-- nextWebhookRetryAt; the power is a double, which is exact or above the cap.
unfoldable pub next_webhook_retry_at : ℕ → ℕ → ℕ
next_webhook_retry_at now attempt_count =
    now + min (webhook_base_retry_delay_ms * 2 ^ (attempt_count - 1)) webhook_max_retry_delay_ms

unfoldable pub is_retryable_webhook_status : ℕ → Bool
is_retryable_webhook_status status =
    leb 500 status || status == 408 || status == 409 || status == 425 || status == 429

-- The arguments of updateWireWebhookOutboxDelivery, whose callers all increment the count.
pub record DeliveryUpdate : Type 0 where
  pub delivery_status : WireWebhookDeliveryStatus
  pub last_error : Option Text
  pub delivered_at : Option ℕ
  pub next_attempt_at : Option ℕ

abbrev pub apply_delivery : ℕ → DeliveryUpdate → WireWebhookOutbox → WireWebhookOutbox
apply_delivery now input row = record row {
  delivery_status = input.delivery_status;
  last_error = input.last_error;
  delivered_at = input.delivered_at;
  next_attempt_at = input.next_attempt_at;
  last_attempt_at = some now;
  attempt_count = row.attempt_count + 1;
}

unfoldable pub update_outbox_delivery :
    ℕ → Text → DeliveryUpdate → WireDb → Result WireWebhookOutbox × WireDb
update_outbox_delivery now event_id input db = elim (find (is_event event_id) db.outbox) [
  | none ↦ (err record_not_found, db)
  | some row ↦ (
    ok (apply_delivery now input row),
    record db { outbox = update (is_event event_id) (apply_delivery now input) db.outbox },
  )
]

abbrev pub awaits : WireWebhookDeliveryStatus → Bool
awaits undelivered = true
awaits delivery_failed = true
awaits status = false

-- PENDING or FAILED, and due.
unfoldable pub is_pending : ℕ → WireWebhookOutbox → Bool
is_pending now row = awaits row.delivery_status && due row.next_attempt_at
  where
    due : Option ℕ → Bool
    due none = true
    due (some at) = leb at now

-- `orderBy: [{ nextAttemptAt: "asc" }, { createdAt: "asc" }]`: PostgreSQL puts nulls last.
abbrev outbox_le : WireWebhookOutbox → WireWebhookOutbox → Bool
outbox_le a b = le a.next_attempt_at b.next_attempt_at
  where
    le : Option ℕ → Option ℕ → Bool
    le none none = leb a.created_at b.created_at
    le none (some y) = false
    le (some x) none = true
    le (some x) (some y) = ltb x y || (x == y && leb a.created_at b.created_at)

unfoldable pub list_pending_events : ℕ → ℕ → WireDb → List WireWebhookOutbox
unfolding is_pending sort_by
list_pending_events now limit db =
    take limit (sort_by outbox_le (select (is_pending now) db.outbox))

-- What came back from the target: an answer with its status and text, or an exception with its message.
pub data Response : Type 0 where
  answered : ℕ → Text → Response
  thrown : Text → Response

pub data DeliveryStatus : Type 0 where
  was_delivered retrying was_dead_letter : DeliveryStatus

abbrev dead : Text → DeliveryUpdate
dead message = record {
  delivery_status = dead_letter;
  last_error = some message;
  delivered_at = none;
  next_attempt_at = none;
}

abbrev done : ℕ → DeliveryUpdate
done now = record {
  delivery_status = delivered;
  last_error = none;
  delivered_at = some now;
  next_attempt_at = none;
}

abbrev again : ℕ → ℕ → Text → DeliveryUpdate
again now attempts message = record {
  delivery_status = delivery_failed;
  last_error = some message;
  delivered_at = none;
  next_attempt_at = some (next_webhook_retry_at now attempts);
}

-- `response.ok`.
abbrev is_ok : ℕ → Bool
is_ok status = leb 200 status && leb status 299

-- `number_text` is `String(n)`.
abbrev http_error : (ℕ → Text) → ℕ → Text → Text
http_error number_text status text =
    let shown = take 500 text in
    codes "Webhook delivery failed with HTTP "
    ++ number_text status
    ++ (if is_empty shown then [] else codes ": " ++ shown)

unfoldable pub delivery_of : (ℕ → Text) → ℕ → ℕ → Response → DeliveryUpdate × DeliveryStatus
unfolding next_webhook_retry_at is_retryable_webhook_status
delivery_of number_text now attempt_count (answered status text) =
    let retryable = is_retryable_webhook_status status in
    let exhausted = leb webhook_max_attempts (attempt_count + 1) in
    let message = http_error number_text status text in
    if is_ok status
    then (done now, was_delivered)
    else if retryable && not exhausted
    then (again now (attempt_count + 1) message, retrying)
    else (dead message, was_dead_letter)
delivery_of number_text now attempt_count (thrown message) =
    let exhausted = leb webhook_max_attempts (attempt_count + 1) in
    if exhausted
    then (dead message, was_dead_letter)
    else (again now (attempt_count + 1) message, retrying)

-- An event whose job has no target or no secret is not sent.
unfoldable pub outcome_of :
    (ℕ → Text) → ℕ → Option Text → Option Text → Response → ℕ → DeliveryUpdate × DeliveryStatus
unfolding delivery_of
outcome_of number_text now target_url secret response attempt_count =
    let sendable = is_some (trim_or_null target_url) && is_some (trim_or_null secret) in
    let missing = codes "Webhook target configuration is missing for this GhostWire job." in
    if not sendable
    then (dead missing, was_dead_letter)
    else delivery_of number_text now attempt_count response

abbrev pub answer_with : {A B : Type 0} → A → Result B → Result A
answer_with a (ok b) = ok a
answer_with a (err e) = err e

-- `event` is the row as it was listed, with its job's target and secret.
unfoldable pub deliver_webhook_event :
    (ℕ → Text)
    → ℕ
    → Option Text
    → Option Text
    → Response
    → WireWebhookOutbox
    → WireDb
    → Result DeliveryStatus × WireDb
unfolding outcome_of update_outbox_delivery
deliver_webhook_event number_text now target_url secret response event db =
    let (input, status) =
      outcome_of number_text now target_url secret response event.attempt_count in
    let (written, db') = update_outbox_delivery now event.event_id input db in
    (answer_with status written, db')

-- One attempt: the target of the event's job, what came back, and when.
pub record Attempt : Type 0 where
  pub now : ℕ
  pub target_url : Option Text
  pub webhook_secret : Option Text
  pub response : Response

-- A pass of the operator as one event sees it: it is sent if it still awaits delivery.
unfoldable pub attempt_event : (ℕ → Text) → Text → Attempt → WireDb → WireDb
unfolding deliver_webhook_event
attempt_event number_text event_id a db = elim (find (is_event event_id) db.outbox) [
  | none ↦ db
  | some row ↦
      if awaits row.delivery_status
      then (deliver_webhook_event number_text a.now a.target_url a.webhook_secret a.response row
          db).1
      else db
]

unfoldable pub attempt_all : (ℕ → Text) → Text → List Attempt → WireDb → WireDb
unfolding attempt_event
attempt_all number_text event_id [] db = db
attempt_all number_text event_id (a ∷ rest) db =
    attempt_all number_text event_id rest (attempt_event number_text event_id a db)
