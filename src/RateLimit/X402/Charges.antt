-- ===== src/RateLimit/X402/Charges.antt =====
-- Which buckets a settlement report is counted in.
use ghost_protocol.Prelude.{
  ℕ, ◌+◌, ◌≡◌, refl, sym, arith, Bool, true, false, Option, none, some, List, [], ◌∷◌, Text, leb,
  ltb, if-keeps, ◌∙◌, All, Option-cases, Bool-cases, inl, inr, ap, text_eq, text_eq_refl,
  if◌then◌else◌, ◌++◌, codes,
}
use ghost_protocol.RateLimit.{
  Bucket, Limiter, allowed, decide, consume_bucket, keep_open, sweep_expired_buckets, set_bucket,
  Decision-cases,
}
use ghost_protocol.RateLimit.X402.{
  X402Limits, X402Report, X402Decision, refused_for, payer_service, Check, X402RateLimitAction,
  consume_checks, consume_x402_settlement_rate_limit, signer_check, service_check,
  payer_service_check,
}

-- The requests counted under a key in the window that is open at a time.
abbrev pub used : ℕ → Option Bucket → ℕ
used now none = 0
used now (some bucket) = if leb bucket.reset_at_ms now then 0 else bucket.count

-- One request more is counted under the key.
abbrev pub Charged : ℕ → Text → Limiter → Limiter → Type 0
Charged now key s s' =
    (bucket : Bucket) × (s'.buckets key ≡ some bucket)
    × (bucket.count ≡ used now (s.buckets key) + 1)

decide-charged :
    (limit window_ms now : ℕ) (o : Option Bucket)
    → (decide limit window_ms now o).0 ≡ allowed
    → (bucket : Bucket) × ((decide limit window_ms now o).1 ≡ some bucket)
      × (bucket.count ≡ used now o + 1)
unfolding decide
decide-charged limit window_ms now none e = (_, refl, refl)
decide-charged limit window_ms now (some there) e = elim (Bool-cases (leb there.reset_at_ms now)) [
  | inl over ↦ rw over (_, refl, refl)
  | inr still ↦ elim (Bool-cases (leb limit there.count)) [
    | inl full ↦ absurd (ground arith)
    | inr free ↦ rw (still, free) (_, refl, refl)
  ]
]

keep_open-used : (now : ℕ) (o : Option Bucket) → used now (keep_open now o) ≡ used now o
keep_open-used now none = refl
keep_open-used now (some bucket) = elim (Bool-cases (leb bucket.reset_at_ms now)) [
  | inl over ↦ rw over refl
  | inr still ↦ rw still (rw still refl)
]

swept-used :
    (window_ms now : ℕ) (s : Limiter) (key : Text)
    → used now ((sweep_expired_buckets window_ms now s).buckets key) ≡ used now (s.buckets key)
unfolding sweep_expired_buckets
swept-used window_ms now s key =
    if-keeps (λ (s' : Limiter). used now (s'.buckets key) ≡ used now (s.buckets key))
      (ltb now (s.last_sweep_at_ms + window_ms)) refl (keep_open-used now (s.buckets key))

consume_bucket-other :
    (key other : Text) (limit window_ms now : ℕ) (buckets : Text → Option Bucket)
    → text_eq key other ≡ false
    → (consume_bucket key limit window_ms now buckets).1 other ≡ buckets other
unfolding consume_bucket
consume_bucket-other key other limit window_ms now buckets different =
    elim (Option-cases (decide limit window_ms now (buckets key)).1) [
      | inl kept ↦ rw (kept, consume_bucket) refl
      | inr (bucket, set) ↦ rw (set, different, consume_bucket) refl
    ]

consume_checks-other :
    (window_ms now : ℕ) (checks : List Check) (s : Limiter) (key : Text)
    → All (λ check. text_eq check.key key ≡ false) checks
    → (consume_checks window_ms now checks s).1.buckets key ≡ s.buckets key
unfolding consume_checks
consume_checks-other window_ms now [] s key others = refl
consume_checks-other window_ms now (check ∷ checks) s key (other, others) =
    let buckets = (consume_bucket check.key check.limit window_ms now s.buckets).1 in
    let kept = consume_bucket-other check.key key check.limit window_ms now s.buckets other in
    elim (Decision-cases (consume_bucket check.key check.limit window_ms now s.buckets).0) [
      | inl passed ↦
          rw (passed, consume_checks)
            (consume_checks-other window_ms now checks (record s { buckets = buckets }) key others
              ∙ kept)
      | inr (seconds, stopped) ↦ rw (stopped, consume_checks) kept
    ]

abbrev is_payer : X402RateLimitAction → Bool
is_payer payer_service = true
is_payer action = false

-- A check before the one of the payer, of a report that the payer's refuses.
record Passed (window_ms now : ℕ) (check : Check) (checks : List Check) (s : Limiter)
    (answer : X402Decision × Limiter) : Type 0 where
  s₁ : Limiter
  rest : consume_checks window_ms now checks s₁ ≡ answer
  charged : Charged now check.key s s₁
  kept : (key : Text) → text_eq check.key key ≡ false → s₁.buckets key ≡ s.buckets key

consume_checks-Passed :
    (window_ms now : ℕ) (check : Check) (checks : List Check) (s : Limiter) {seconds : ℕ}
    {s' : Limiter}
    → is_payer check.action ≡ false
    → consume_checks window_ms now (check ∷ checks) s ≡ (refused_for payer_service seconds, s')
    → Passed window_ms now check checks s (refused_for payer_service seconds, s')
unfolding consume_checks consume_bucket
consume_checks-Passed window_ms now check checks s {seconds} {s'} early e =
    elim (Decision-cases (decide check.limit window_ms now (s.buckets check.key)).0) [
      | inr (seconds', stopped) ↦ absurd (ground arith)
      | inl passed ↦
          let (bucket, set, counted) =
            decide-charged check.limit window_ms now (s.buckets check.key) passed in
          let s₁ : Limiter = record s { buckets = set_bucket check.key bucket s.buckets } in
          let step : consume_checks window_ms now (check ∷ checks) s
              ≡ consume_checks window_ms now checks s₁ =
            rw (passed, set, consume_checks, consume_bucket) refl in
          record {
            s₁ = s₁;
            rest = sym step ∙ e;
            charged = (bucket, rw (text_eq_refl check.key) refl, counted);
            kept = λ key different. rw different refl;
          }
    ]

Charged-between :
    (now : ℕ) (key : Text) (s₀ s₁ s s' : Limiter)
    → Charged now key s₀ s₁
    → used now (s₀.buckets key) ≡ used now (s.buckets key)
    → s'.buckets key ≡ s₁.buckets key
    → Charged now key s s'
Charged-between now key s₀ s₁ s s' (bucket, there, counted) before later =
    (bucket, later ∙ there, counted ∙ ap (λ n. n + 1) before)

keys-differ :
    (limits : X402Limits) (report : X402Report)
    → (text_eq (signer_check limits report).key (service_check limits report).key ≡ false)
      × (text_eq (service_check limits report).key (signer_check limits report).key ≡ false)
      × (text_eq (payer_service_check limits report).key (signer_check limits report).key ≡ false)
      × (text_eq (payer_service_check limits report).key (service_check limits report).key ≡ false)
unfolding signer_check service_check payer_service_check ghost_protocol.Prelude.text_eq
keys-differ limits report = (refl, refl, refl, refl)

-- A settlement report that is refused for its payer has been counted all the same against its signer and against its
-- service: one more in each of their open windows.
pub consume_x402_settlement_rate_limit-Charged :
    (limits : X402Limits) (now : ℕ) (report : X402Report) (s : Limiter) {seconds : ℕ} {s' : Limiter}
    → consume_x402_settlement_rate_limit limits now report s
      ≡ (refused_for payer_service seconds, s')
    → Charged now (signer_check limits report).key s s'
      × Charged now (service_check limits report).key s s'
unfolding consume_x402_settlement_rate_limit
consume_x402_settlement_rate_limit-Charged limits now report s {seconds} {s'} e =
    let swept : Limiter = sweep_expired_buckets limits.window_ms now s in
    let k₁ : Text = (signer_check limits report).key in
    let k₂ : Text = (service_check limits report).key in
    let (d₁₂, d₂₁, d₃₁, d₃₂) = keys-differ limits report in
    let p : Passed limits.window_ms now (signer_check limits report) _ swept _ =
      consume_checks-Passed limits.window_ms now (signer_check limits report)
        (service_check limits report ∷ payer_service_check limits report ∷ []) swept refl e in
    let q : Passed limits.window_ms now (service_check limits report) _ p.s₁ _ =
      consume_checks-Passed limits.window_ms now (service_check limits report)
        (payer_service_check limits report ∷ []) p.s₁ refl p.rest in
    let ends : (key : Text)
        → text_eq (payer_service_check limits report).key key ≡ false
        → s'.buckets key ≡ q.s₁.buckets key =
      λ key different.
        ap (λ (x : X402Decision × Limiter). x.1.buckets key) (sym q.rest)
        ∙ consume_checks-other limits.window_ms now (payer_service_check limits report ∷ []) q.s₁
            key (different, tt) in
    (
      Charged-between now k₁ swept p.s₁ s s' p.charged (swept-used limits.window_ms now s k₁)
          (ends k₁ d₃₁ ∙ q.kept k₁ d₂₁),
      Charged-between now k₂ p.s₁ q.s₁ s s' q.charged
          (ap (used now) (p.kept k₂ d₁₂) ∙ swept-used limits.window_ms now s k₂) (ends k₂ d₃₂),
    )
