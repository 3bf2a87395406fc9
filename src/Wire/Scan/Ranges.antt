-- ===== src/Wire/Scan/Ranges.antt =====
-- The backwards scan ends within its rounds, and finds in each range of blocks the events that the chain has there.
use ghost_protocol.Prelude.{
  ℕ, zero, suc, ◌-◌, ◌<◌, ◌≡◌, refl, arith, true, ◌&&◌, Option, none, some, List, ◌++◌, map, ltb,
  ◌==◌, last_of, All, All-append, Bool-cases, inl, inr, ◌*◌, length, ◌↔◌, sym, All-zip,
  All-map-select, All-map,
}
use ghost_protocol.Prelude.Sorting.{sort_by}
use ghost_protocol.Wire.Scan.{
  Log, LifecycleEvent, get_logs, event_of, events_in, event_le, range_start, scan_back,
  is_lifecycle, in_range,
}
use ghost_protocol.Wire.Schema.{
  job_submitted, WireContractState, job_open, job_completed, state_eq, job_rejected, job_expired,
  job_funded, state_eq_sound,
}
use mathlib.Core.Path.{subst}

-- The loop ends: this many rounds suffice from any block.
pub scan_back-ends :
    (fuel latest_block to_block : ℕ) (chain : List Log)
    → to_block < fuel * 9_001
    → (answer : Option LifecycleEvent) × (scan_back fuel latest_block to_block chain ≡ some answer)
unfolding scan_back range_start
scan_back-ends zero latest_block to_block chain h = absurd (omega arith)
scan_back-ends (suc fuel) latest_block to_block chain h =
    let from_block = range_start to_block in
    elim (Bool-cases (ltb 0 (length (events_in latest_block from_block to_block chain)))) [
      | inl some_events ↦ (
        last_of (sort_by event_le (events_in latest_block from_block to_block chain)),
        rw some_events refl,
      )
      | inr no_events ↦ elim (Bool-cases (from_block == 0)) [
        | inl genesis ↦ (none, rw (no_events, genesis) refl)
        | inr later ↦
            let (answer, e) =
              scan_back-ends fuel latest_block (from_block - 1) chain (ground arith) in
            (answer, rw (no_events, later, e) refl)
      ]
    ]

-- What holds of the events of a range, read off the chain, and back.
module _ (P : LifecycleEvent → Type 0) (latest_block from_block to_block : ℕ)
    (chain : List Log) where
  abbrev pub InRange : Log → Type 0
  InRange log =
      is_lifecycle log.state ≡ true
      → in_range from_block to_block log ≡ true
      → P (event_of latest_block log)

  abbrev pub One : WireContractState → Log → Type 0
  One state log =
      (state_eq log.state state && in_range from_block to_block log) ≡ true
      → P (event_of latest_block log)

  One-InRange :
      (log : Log)
      → One job_submitted log
      → One job_completed log
      → One job_rejected log
      → One job_expired log
      → InRange log
  One-InRange log a b c d lifecycle inside = go log.state refl
    where
      go : (s : WireContractState) → log.state ≡ s → P (event_of latest_block log)
      go job_open e = absurd (ground arith)
      go job_funded e = absurd (ground arith)
      go job_submitted e = a (rw (e, inside) refl)
      go job_completed e = b (rw (e, inside) refl)
      go job_rejected e = c (rw (e, inside) refl)
      go job_expired e = d (rw (e, inside) refl)

  InRange-One :
      (state : WireContractState)
      → is_lifecycle state ≡ true
      → (log : Log) → InRange log
      → One state log
  InRange-One state lifecycle log h both =
      h
        (subst (λ s. is_lifecycle s ≡ true) (sym (state_eq_sound log.state state (ground arith)))
          lifecycle)
        (ground arith)

  abbrev logs_of : WireContractState → List LifecycleEvent
  logs_of state = map (event_of latest_block) (get_logs state from_block to_block chain)

  logs_of_iff : (state : WireContractState) → All P (logs_of state) ↔ All (One state) chain
  unfolding get_logs
  logs_of_iff state =
      All-map-select P (event_of latest_block)
        (λ log. state_eq log.state state && in_range from_block to_block log) chain

  pub events_in-InRange :
      All P (events_in latest_block from_block to_block chain) → All InRange chain
  unfolding events_in
  events_in-InRange h =
      let (h₁, e) =
        (All-append P (logs_of job_submitted ++ logs_of job_completed ++ logs_of job_rejected)
            (logs_of job_expired)).0
          h in
      let (h₂, r) =
        (All-append P (logs_of job_submitted ++ logs_of job_completed) (logs_of job_rejected)).0
          h₁ in
      let (s, c) = (All-append P (logs_of job_submitted) (logs_of job_completed)).0 h₂ in
      let two : All (λ log. One job_submitted log × One job_completed log) chain =
        All-zip (One job_submitted) (One job_completed) _ chain (λ log a b. (a, b))
          ((logs_of_iff job_submitted).0 s) ((logs_of_iff job_completed).0 c) in
      let last_two : All (λ log. One job_rejected log × One job_expired log) chain =
        All-zip (One job_rejected) (One job_expired) _ chain (λ log a b. (a, b))
          ((logs_of_iff job_rejected).0 r) ((logs_of_iff job_expired).0 e) in
      All-zip _ _ InRange chain (λ log (a, b) (x, y). One-InRange log a b x y) two last_two

  pub InRange-events_in :
      All InRange chain → All P (events_in latest_block from_block to_block chain)
  unfolding events_in
  InRange-events_in h =
      let piece : (state : WireContractState) → is_lifecycle state ≡ true → All P (logs_of state) =
        λ state lifecycle.
          (logs_of_iff state).1
            (All-map InRange (One state) chain (InRange-One state lifecycle) h) in
      (All-append P (logs_of job_submitted ++ logs_of job_completed ++ logs_of job_rejected)
          (logs_of job_expired)).1
        (
          (All-append P (logs_of job_submitted ++ logs_of job_completed) (logs_of job_rejected)).1 (
            (All-append P (logs_of job_submitted) (logs_of job_completed)).1
                (piece job_submitted refl, piece job_completed refl),
            piece job_rejected refl,
          ),
          piece job_expired refl,
        )
