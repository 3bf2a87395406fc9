-- ===== src/Wire/Scan/Latest.antt =====
-- The backwards scan answers the last event of the chain.
use ghost_protocol.Prelude.{
  ℕ, zero, suc, ◌-◌, ◌≤◌, ◌<◌, ◌≡◌, refl, arith, true, false, Option, none, some, List, leb, ltb,
  ◌==◌, last_of, All, last-All, Bool-cases, inl, inr, Option-cases, length, sym, All-zip, All-map,
  Any, All-of_every_one, Any-map, All-Any, All-of_empty,
}
use ghost_protocol.Prelude.Sorting.{
  sort_by, All-of_sort_by, All-sort_by, sort_by-IsSorted, IsSorted-last, last-sort_by-none,
}
use ghost_protocol.Wire.Scan.{
  Log, LifecycleEvent, event_of, events_in, event_le, range_start, scan_back, scan_rounds,
  get_latest_lifecycle_event, is_relevant,
}
use mathlib.Core.Path.{subst}
use ghost_protocol.Wire.Scan.Ranges.{scan_back-ends, InRange, InRange-events_in, events_in-InRange}

-- The log of an event of the answer: it is one of the chain's.
abbrev IsEventOf : ℕ → LifecycleEvent → Log → Type 0
IsEventOf latest_block event log =
    (is_relevant latest_block log ≡ true) × (event_of latest_block log ≡ event)

-- What the scan is for: no event if the chain has none, and else one of its events that none stands after.
abbrev pub IsLatest : ℕ → List Log → Option LifecycleEvent → Type 0
IsLatest latest_block chain none = All (λ log. is_relevant latest_block log ≡ false) chain
IsLatest latest_block chain (some event) =
    Any (IsEventOf latest_block event) chain
    × All
        (λ log.
          is_relevant latest_block log ≡ true → event_le (event_of latest_block log) event ≡ true)
        chain

event_le_refl : (x : LifecycleEvent) → event_le x x ≡ true
unfolding event_le
event_le_refl x = ground arith

event_le_total : (x y : LifecycleEvent) → event_le x y ≡ false → event_le y x ≡ true
unfolding event_le
event_le_total x y e = ground arith

event_le_trans :
    (x y z : LifecycleEvent) → event_le x y ≡ true → event_le y z ≡ true → event_le x z ≡ true
unfolding event_le
event_le_trans x y z e f = ground arith

event_le_below : (x y : LifecycleEvent) → x.block_number < y.block_number → event_le x y ≡ true
unfolding event_le
event_le_below x y e = ground arith

-- Every event of the chain stands at or before the block that the scan has come down to.
abbrev Beyond : ℕ → ℕ → List Log → Type 0
Beyond latest_block to_block chain =
    All (λ log. is_relevant latest_block log ≡ true → log.block_number ≤ to_block) chain

module _ (latest_block from_block to_block : ℕ) (chain : List Log) (known : to_block ≤ latest_block)
    (beyond : Beyond latest_block to_block chain) where
  abbrev events : List LifecycleEvent
  events = events_in latest_block from_block to_block chain

  -- What holds of every event of the range holds of the one that the scan picks.
  picked :
      (P : LifecycleEvent → Type 0) {event : LifecycleEvent}
      → last_of (sort_by event_le events) ≡ some event
      → All (InRange P latest_block from_block to_block chain) chain
      → P event
  picked P last h =
      last-All P (sort_by event_le events) last (
        All-sort_by event_le P events
          (InRange-events_in P latest_block from_block to_block chain h))

  found-IsLatest :
      {event : LifecycleEvent}
      → last_of (sort_by event_le events) ≡ some event
      → IsLatest latest_block chain (some event)
  found-IsLatest {event} last =
      let At : LifecycleEvent → Type 0 = λ x. Any (IsEventOf latest_block x) chain in
      let Before : LifecycleEvent → Type 0 = λ x. event_le x event ≡ true in
      let After : LifecycleEvent → Type 0 = λ x. from_block ≤ x.block_number in
      let after : from_block ≤ event.block_number = picked After last (
        All-of_every_one (InRange After latest_block from_block to_block chain) chain
          (λ log lifecycle inside. ground arith)) in
      let before : All (InRange Before latest_block from_block to_block chain) chain =
        events_in-InRange Before latest_block from_block to_block chain (
          All-of_sort_by event_le Before events (
            IsSorted-last event_le event_le_refl (sort_by event_le events)
              (sort_by-IsSorted event_le event_le_total event_le_trans events) last)) in
      (
        picked At last (
            All-map (λ log. Any (λ l. l ≡ log) chain)
              (InRange At latest_block from_block to_block chain) chain
              (λ log own lifecycle inside.
                Any-map (λ l. l ≡ log) (IsEventOf latest_block (event_of latest_block log)) chain
                  (λ l same.
                    subst (λ k. IsEventOf latest_block (event_of latest_block log) k) (sym same)
                      (ground arith, refl))
                  own)
              (All-Any (λ l log. l ≡ log) chain (λ log. refl))),
        All-zip _ _ _ chain
            (λ log inside_before low relevant. elim (Bool-cases (leb from_block log.block_number)) [
              | inl inside ↦ inside_before (ground arith) (ground (arith, low relevant))
              | inr below ↦ event_le_below (event_of latest_block log) event (ground arith)
            ])
            before beyond,
      )

  empty-None :
      length events ≡ 0
      → All (InRange (λ x. x.block_number < 0) latest_block from_block to_block chain) chain
  empty-None none_there =
      events_in-InRange (λ x. x.block_number < 0) latest_block from_block to_block chain
        (All-of_empty (λ x. x.block_number < 0) events none_there)

  -- A range with no event leaves the events below it.
  empty-Beyond :
      length events ≡ 0
      → All (λ log. is_relevant latest_block log ≡ true → log.block_number < from_block) chain
  empty-Beyond none_there =
      All-zip _ _ _ chain (λ log gone low relevant. ground (arith, low relevant))
        (empty-None none_there) beyond

scan_back-IsLatest :
    (fuel latest_block to_block : ℕ) (chain : List Log) {answer : Option LifecycleEvent}
    → to_block ≤ latest_block
    → Beyond latest_block to_block chain
    → scan_back fuel latest_block to_block chain ≡ some answer
    → IsLatest latest_block chain answer
unfolding scan_back
scan_back-IsLatest zero latest_block to_block chain known beyond e = cc
scan_back-IsLatest (suc fuel) latest_block to_block chain {answer} known beyond e =
    let from_block = range_start to_block in
    let there : List LifecycleEvent = events_in latest_block from_block to_block chain in
    elim (Bool-cases (ltb 0 (length there))) [
      | inl some_events ↦ elim (Option-cases (last_of (sort_by event_le there))) [
        | inl gone ↦ absurd (ground (arith, last-sort_by-none event_le there gone))
        | inr (event, last) ↦ subst (IsLatest latest_block chain) {x = some event} (ground arith) (
            found-IsLatest latest_block from_block to_block chain known beyond {event = event} last)
      ]
      | inr no_events ↦
          let below =
            empty-Beyond latest_block from_block to_block chain known beyond (ground arith) in
          elim (Bool-cases (from_block == 0)) [
            | inl genesis ↦ subst (IsLatest latest_block chain) {x = none} (ground arith) (
                All-map _ (λ log. is_relevant latest_block log ≡ false) chain
                  (λ log low. elim (Bool-cases (is_relevant latest_block log)) [
                    | inl relevant ↦ absurd (ground (arith, low relevant))
                    | inr far ↦ far
                  ])
                  below)
            | inr later ↦
                scan_back-IsLatest fuel latest_block (from_block - 1) chain (ground arith)
                  (All-map _ _ chain (λ log low relevant. ground (arith, low relevant)) below)
                  (ground arith)
          ]
    ]

-- The backwards scan of getLatestGhostWireLifecycleEvent ends after at most one range for each 9,001 blocks
-- of the chain and one more, and answers the last lifecycle event that the chain had at its latest block, by
-- block and by log index, or no event if the chain had none.
pub get_latest_lifecycle_event-IsLatest :
    (latest_block : ℕ) (chain : List Log)
    → (answer : Option LifecycleEvent) × (get_latest_lifecycle_event latest_block chain
        ≡ some answer)
      × IsLatest latest_block chain answer
unfolding get_latest_lifecycle_event
get_latest_lifecycle_event-IsLatest latest_block chain =
    let (answer, e) =
      scan_back-ends (scan_rounds latest_block) latest_block latest_block chain (omega arith) in
    (
      answer,
      e,
      scan_back-IsLatest (scan_rounds latest_block) latest_block latest_block chain
          {answer = answer} (omega arith) (All-of_every_one _ chain (λ log relevant. ground arith))
          e,
    )
