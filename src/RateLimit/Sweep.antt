-- ===== src/RateLimit/Sweep.antt =====
-- What the sweep of old buckets changes of the answers: nothing.
use ghost_protocol.Prelude.{
  ℕ, ◌+◌, ◌≤◌, ◌≡◌, ◌⊎◌, refl, sym, ap, arith, true, Option, none, some, List, [], ◌∷◌, Text, leb,
  ltb, Bool-cases, inl, inr, text_eq, if-keeps, leb→le,
}
use ghost_protocol.RateLimit.{
  Bucket, Limiter, Decision, Request, consume, decide, consume_bucket, keep_open,
  sweep_expired_buckets, decisions, set_if,
}

-- The answers of a limiter that never deletes a bucket.
unfoldable pub unswept_decisions : ℕ → List Request → (Text → Option Bucket) → List Decision
unfolding consume_bucket
unswept_decisions window_ms [] buckets = []
unswept_decisions window_ms (r ∷ rs) buckets =
    let (decision, buckets') = consume_bucket r.key r.limit window_ms r.now buckets in
    decision ∷ unswept_decisions window_ms rs buckets'

-- Each request comes no earlier than the one before.
abbrev pub InOrder : ℕ → List Request → Type 0
InOrder now [] = Unit
InOrder now (r ∷ rs) = (now ≤ r.now) × InOrder r.now rs

-- The same bucket, or one that is over at `now` and has been deleted.
abbrev Agrees : ℕ → Option Bucket → Option Bucket → Type 0
Agrees now mine theirs =
    (mine ≡ theirs)
    ⊎ ((mine ≡ none) × (bucket : Bucket) × (theirs ≡ some bucket) × (bucket.reset_at_ms ≤ now))

keep_open-Agrees :
    (now now' : ℕ) (mine theirs : Option Bucket)
    → now ≤ now'
    → Agrees now mine theirs
    → Agrees now' mine theirs × Agrees now' (keep_open now' mine) theirs
keep_open-Agrees now now' none theirs later (inl same) = (inl same, inl same)
keep_open-Agrees now now' (some bucket) theirs later (inl same) = (
  inl same,
  elim (Bool-cases (leb bucket.reset_at_ms now')) [
    | inl over ↦ rw over (inr (refl, bucket, sym same, leb→le _ _ over))
    | inr still ↦ rw still (inl same)
  ],
)
keep_open-Agrees now now' mine theirs later (inr (gone, bucket, there, over)) =
    let gone' : keep_open now' mine ≡ none = rw gone refl in
    (
      inr (gone, bucket, there, omega (arith, over, later)),
      inr (gone', bucket, there, omega (arith, over, later)),
    )

sweep-Agrees :
    (window_ms now now' : ℕ) (s : Limiter) (buckets : Text → Option Bucket) (key : Text)
    → now ≤ now'
    → Agrees now (s.buckets key) (buckets key)
    → Agrees now' ((sweep_expired_buckets window_ms now' s).buckets key) (buckets key)
unfolding sweep_expired_buckets
sweep-Agrees window_ms now now' s buckets key later a =
    let (kept, swept) = keep_open-Agrees now now' (s.buckets key) (buckets key) later a in
    if-keeps (λ (s' : Limiter). Agrees now' (s'.buckets key) (buckets key))
      (ltb now' (s.last_sweep_at_ms + window_ms)) kept swept

decide-Agrees :
    (limit window_ms now : ℕ) (mine theirs : Option Bucket)
    → Agrees now mine theirs
    → decide limit window_ms now mine ≡ decide limit window_ms now theirs
unfolding decide
decide-Agrees limit window_ms now mine theirs (inl same) = ap (decide limit window_ms now) same
decide-Agrees limit window_ms now mine theirs (inr (gone, bucket, there, over)) =
    let over' : leb bucket.reset_at_ms now ≡ true = ground arith in
    rw (gone, there, over', decide) refl

set_if-Agrees :
    (now : ℕ) (set : Option Bucket) (r_key key : Text) (mine theirs : Text → Option Bucket)
    → Agrees now (mine key) (theirs key)
    → Agrees now (set_if r_key set mine key) (set_if r_key set theirs key)
set_if-Agrees now none r_key key mine theirs a = a
set_if-Agrees now (some bucket) r_key key mine theirs a = elim (Bool-cases (text_eq r_key key)) [
  | inl own ↦ rw own (inl refl)
  | inr other ↦ rw other a
]

cons-eq : {x y : Decision} {xs ys : List Decision} → x ≡ y → xs ≡ ys → x ∷ xs ≡ y ∷ ys
cons-eq e f = cc

decisions-Agrees :
    (window_ms now : ℕ) (rs : List Request) (s : Limiter) (buckets : Text → Option Bucket)
    → InOrder now rs
    → ((key : Text) → Agrees now (s.buckets key) (buckets key))
    → decisions window_ms rs s ≡ unswept_decisions window_ms rs buckets
unfolding decisions unswept_decisions consume consume_bucket
decisions-Agrees window_ms now [] s buckets o a = refl
decisions-Agrees window_ms now (r ∷ rs) s buckets (later, o) a =
    let swept : Limiter = sweep_expired_buckets window_ms r.now s in
    let agrees : (key : Text) → Agrees r.now (swept.buckets key) (buckets key) =
      λ key. sweep-Agrees window_ms now r.now s buckets key later (a key) in
    let same : decide r.limit window_ms r.now (swept.buckets r.key)
        ≡ decide r.limit window_ms r.now (buckets r.key) =
      decide-Agrees r.limit window_ms r.now (swept.buckets r.key) (buckets r.key) (agrees r.key) in
    let answer : Decision × Option Bucket = decide r.limit window_ms r.now (buckets r.key) in
    let rest : decisions window_ms rs (record swept {
      buckets = set_if r.key (decide r.limit window_ms r.now (swept.buckets r.key)).1 swept.buckets;
    })
        ≡ unswept_decisions window_ms rs (set_if r.key answer.1 buckets) =
      decisions-Agrees window_ms r.now rs _ (set_if r.key answer.1 buckets) o (λ key.
        rw same (set_if-Agrees r.now answer.1 r.key key swept.buckets buckets (agrees key))) in
    cons-eq (ap (λ x. x.0) same) rest

-- If requests come in the order of their times, a limiter gives the answers of one that never deletes a bucket: the
-- sweep frees memory and is seen in no answer.
pub decisions-unswept :
    (window_ms now : ℕ) (rs : List Request) (s : Limiter)
    → InOrder now rs
    → decisions window_ms rs s ≡ unswept_decisions window_ms rs s.buckets
decisions-unswept window_ms now rs s o =
    decisions-Agrees window_ms now rs s s.buckets o (λ key. inl refl)
