-- ===== src/Wire/Outbox/Retries.antt =====
-- The attempts to deliver one event: how many there are, how they end, and how far apart they lie.
use ghost_protocol.Prelude.{
  ℕ, ◌&&◌, zero, suc, ◌+◌, ◌-◌, ◌^◌, ◌≤◌, ◌<◌, ◌≡◌, refl, arith, Bool, true, false, Option, some,
  List, [], ◌∷◌, Text, length, find, find-update_self, find-test, Bool-cases, inl, inr, text_eq_iff,
  ◌⊎◌, is_some, trim_or_null, ap,
}
use mathlib.Core.Path.{subst, sym}
use ghost_protocol.Wire.Schema.{WireDb, WireWebhookOutbox}
use ghost_protocol.Wire.Tables.{is_event}
use ghost_protocol.Wire.Outbox.{
  Attempt, awaits, apply_delivery, deliver_webhook_event, attempt_event, attempt_all,
  webhook_max_attempts, update_outbox_delivery, delivery_of, Response, DeliveryUpdate, answered,
  thrown, outcome_of, next_webhook_retry_at, webhook_base_retry_delay_ms,
  webhook_max_retry_delay_ms,
}

-- What an attempt leaves of the event's row: one attempt more, and no further one after the last.
record Tried (row row' : WireWebhookOutbox) : Type 0 where
  counted : row'.attempt_count ≡ row.attempt_count + 1
  last : awaits row'.delivery_status ≡ true → row.attempt_count + 1 < webhook_max_attempts

delivery_of-last :
    (number_text : ℕ → Text) (now attempts : ℕ) (response : Response)
    → awaits (delivery_of number_text now attempts response).0.delivery_status ≡ true
    → attempts + 1 < webhook_max_attempts
unfolding delivery_of
delivery_of-last number_text now attempts (answered status text) h = ground arith
delivery_of-last number_text now attempts (thrown message) h = ground arith

update_outbox_delivery-found :
    (now : ℕ) (input : DeliveryUpdate) (db : WireDb) {row : WireWebhookOutbox}
    → find (is_event row.event_id) db.outbox ≡ some row
    → find (is_event row.event_id) (update_outbox_delivery now row.event_id input db).1.outbox
      ≡ some (apply_delivery now input row)
unfolding update_outbox_delivery
update_outbox_delivery-found now input db {row} there =
    rw (there, update_outbox_delivery)
      (find-update_self (is_event row.event_id) (apply_delivery now input) db.outbox (λ x h. h)
        there)

outcome_of-last :
    (number_text : ℕ → Text) (now : ℕ) (target_url secret : Option Text) (response : Response)
    (attempts : ℕ)
    → awaits (outcome_of number_text now target_url secret response attempts).0.delivery_status
      ≡ true
    → attempts + 1 < webhook_max_attempts
unfolding outcome_of
outcome_of-last number_text now target_url secret response attempts h =
    elim (Bool-cases (is_some (trim_or_null target_url) && is_some (trim_or_null secret))) [
      | inl sendable ↦ delivery_of-last number_text now attempts response (ground arith)
      | inr unsendable ↦ absurd (ground arith)
    ]

deliver-Tried :
    (number_text : ℕ → Text) (a : Attempt) (db : WireDb) {row : WireWebhookOutbox}
    → find (is_event row.event_id) db.outbox ≡ some row
    → (row' : WireWebhookOutbox) × (find
          (is_event row.event_id)
          (deliver_webhook_event number_text a.now a.target_url a.webhook_secret a.response row
            db).1.outbox
        ≡ some row')
      × Tried row row'
unfolding deliver_webhook_event
deliver-Tried number_text a db {row} there =
    let (input, status) =
      outcome_of number_text a.now a.target_url a.webhook_secret a.response row.attempt_count in
    (
      apply_delivery a.now input row,
      update_outbox_delivery-found a.now input db {row = row} there,
      record {
        counted = refl;
        last =
            outcome_of-last number_text a.now a.target_url a.webhook_secret a.response
              row.attempt_count;
      },
    )

-- A row that is settled, or has fewer attempts than are left of the six.
abbrev Within : ℕ → WireWebhookOutbox → Type 0
Within left row =
    awaits row.delivery_status ≡ true → row.attempt_count + left < webhook_max_attempts

attempt_event-Within :
    (number_text : ℕ → Text) (event_id : Text) (a : Attempt) (db : WireDb) {row : WireWebhookOutbox}
    → find (is_event event_id) db.outbox ≡ some row
    → (row' : WireWebhookOutbox) × (find
          (is_event event_id)
          (attempt_event number_text event_id a db).outbox
        ≡ some row')
      × (((awaits row.delivery_status ≡ false) × (row' ≡ row))
          ⊎ ((awaits row.delivery_status ≡ true) × Tried row row'))
unfolding attempt_event
attempt_event-Within number_text event_id a db {row} there =
    elim (Bool-cases (awaits row.delivery_status)) [
      | inr settled ↦ (row, rw (there, settled, attempt_event) there, inl (settled, refl))
      | inl awaiting ↦
          let id : row.event_id ≡ event_id =
            (text_eq_iff row.event_id event_id).0 (find-test (is_event event_id) db.outbox there) in
          let (row', e, tried) =
            deliver-Tried number_text a db {row = row}
              (subst (λ key. find (is_event key) db.outbox ≡ some row) (sym id) there) in
          (
            row',
            rw (there, awaiting, attempt_event)
                (subst
                  (λ key.
                    find (is_event key)
                      (deliver_webhook_event number_text a.now a.target_url a.webhook_secret
                        a.response row db).1.outbox
                    ≡ some row')
                  id e),
            inr (awaiting, tried),
          )
    ]

-- What a series of attempts leaves: at most six, and all of them made if the row still awaits delivery.
record TriedAll (made : ℕ) (row row' : WireWebhookOutbox) : Type 0 where
  bounded : row'.attempt_count ≤ webhook_max_attempts
  stays : awaits row.delivery_status ≡ false → awaits row'.delivery_status ≡ false
  unsettled :
      awaits row'.delivery_status ≡ true
      → (row'.attempt_count ≡ row.attempt_count + made)
        × (row'.attempt_count < webhook_max_attempts)

both_ways : {b : Bool} → b ≡ false → b ≡ true → ⊥
both_ways e f = cc

attempt_all-TriedAll :
    (number_text : ℕ → Text) (event_id : Text) (attempts : List Attempt) (db : WireDb)
    {row : WireWebhookOutbox}
    → find (is_event event_id) db.outbox ≡ some row
    → row.attempt_count ≤ webhook_max_attempts
    → (awaits row.delivery_status ≡ true → row.attempt_count < webhook_max_attempts)
    → (row' : WireWebhookOutbox) × (find
          (is_event event_id)
          (attempt_all number_text event_id attempts db).outbox
        ≡ some row')
      × TriedAll (length attempts) row row'
unfolding attempt_all
attempt_all-TriedAll number_text event_id [] db {row} there few left =
    (row, there, record { bounded = few; stays = λ h. h; unsettled = λ h. (omega arith, left h) })
attempt_all-TriedAll number_text event_id (a ∷ rest) db {row} there few left =
    let (row₁, there₁, one) = attempt_event-Within number_text event_id a db {row = row} there in
    let db₁ = attempt_event number_text event_id a db in
    elim one [
      | inl (settled, same) ↦
          let (row', there', all) =
            attempt_all-TriedAll number_text event_id rest db₁ {row = row₁} there₁
              (subst (λ r. r.attempt_count ≤ webhook_max_attempts) (sym same) few)
              (λ h. absurd (ground arith)) in
          let settled₁ : awaits row₁.delivery_status ≡ false =
            subst (λ r. awaits r.delivery_status ≡ false) (sym same) settled in
          let settled' = all.stays settled₁ in
          (
            row',
            there',
            record {
              bounded = all.bounded;
              stays = λ _. settled';
              unsettled = λ h. absurd (both_ways settled' h);
            },
          )
      | inr (awaiting, tried) ↦
          let (row', there', all) =
            attempt_all-TriedAll number_text event_id rest db₁ {row = row₁} there₁
              (ground (arith, tried.counted, left awaiting))
              (λ h. ground (arith, tried.counted, tried.last h)) in
          (
            row',
            there',
            record {
              bounded = all.bounded;
              stays = λ h. absurd (both_ways h awaiting);
              unsettled =
                  λ h. let (made, few') = all.unsettled h in (ground (arith, tried.counted), few');
            },
          )
    ]

-- An event that is in the outbox and not yet tried, and that the operator tries at least six times while it awaits
-- delivery, is delivered or dead-lettered afterwards, whatever its targets answered, and it has been sent at
-- most six times however often the operator passed.
pub attempt_all-ends :
    (number_text : ℕ → Text) (event_id : Text) (attempts : List Attempt) (db : WireDb)
    {row : WireWebhookOutbox}
    → find (is_event event_id) db.outbox ≡ some row
    → row.attempt_count ≡ 0
    → webhook_max_attempts ≤ length attempts
    → (row' : WireWebhookOutbox) × (find
          (is_event event_id)
          (attempt_all number_text event_id attempts db).outbox
        ≡ some row')
      × (awaits row'.delivery_status ≡ false)
      × (row'.attempt_count ≤ webhook_max_attempts)
attempt_all-ends number_text event_id attempts db {row} there fresh enough =
    let (row', there', all) =
      attempt_all-TriedAll number_text event_id attempts db {row = row} there (ground arith)
        (λ h. ground arith) in
    (
      row',
      there',
      elim (Bool-cases (awaits row'.delivery_status)) [
        | inl awaiting ↦ let (made, few) = all.unsettled awaiting in absurd (ground arith)
        | inr settled ↦ settled
      ],
      all.bounded,
    )

two_pow_pos : (n : ℕ) → 1 ≤ 2 ^ n
two_pow_pos zero = omega arith
two_pow_pos (suc n) = omega (arith, two_pow_pos n)

-- The wait before the next attempt is at least a minute and at most half an hour, and never gets shorter.
pub next_webhook_retry_at-bounds :
    (now attempts : ℕ)
    → (now + webhook_base_retry_delay_ms ≤ next_webhook_retry_at now attempts)
      × (next_webhook_retry_at now attempts ≤ now + webhook_max_retry_delay_ms)
      × (next_webhook_retry_at now attempts ≤ next_webhook_retry_at now (attempts + 1))
unfolding next_webhook_retry_at
next_webhook_retry_at-bounds now zero = (omega arith, omega arith, omega arith)
next_webhook_retry_at-bounds now (suc n) =
    let pos : 1 ≤ 2 ^ (suc n - 1) = two_pow_pos (suc n - 1) in
    let here : suc (suc n - 1) ≡ suc n + 1 - 1 = omega arith in
    let double : 2 ^ suc (suc n - 1) ≡ 2 ^ (suc n + 1 - 1) = ap (λ k. 2 ^ k) here in
    (omega (arith, pos), omega arith, omega (arith, pos, double))
