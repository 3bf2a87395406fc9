-- ===== src/RateLimit/Admitted.antt =====
-- How many requests of one key a limiter admits in the span of one window.
use ghost_protocol.Prelude.{
  ℕ, ◌+◌, ◌-◌, ◌≤◌, ◌<◌, ◌≡◌, refl, arith, true, Option, none, some, List, [], ◌∷◌, Text, All, leb,
  ltb, Option-cases, Bool-cases, inl, inr, text_eq, text_eq_iff, text_eq_refl, if◌then◌else◌,
  if-keeps, sym,
}
use mathlib.Core.Path.{subst}
use ghost_protocol.RateLimit.{
  Bucket, Limiter, Decision, allowed, refused, Request, consume, decide, consume_bucket, keep_open,
  sweep_expired_buckets, admitted, is_allowed,
}
use ghost_protocol.RateLimit.Retry.{consume-other}

-- The requests of a span that begins at `start` and is one window long; those of the key are limited
-- by at most `limit`.
pub record IsWithin (start window_ms limit : ℕ) (key : Text) (r : Request) : Type 0 where
  pub from : start ≤ r.now
  pub until : r.now < start + window_ms
  pub limited : text_eq r.key key ≡ true → r.limit ≤ limit

-- What the limiter can still admit of the key until the end of the span.
abbrev budget : ℕ → ℕ → Option Bucket → ℕ
budget limit end none = limit
budget limit end (some bucket) =
    if leb end bucket.reset_at_ms then limit - bucket.count else limit - bucket.count + limit

-- The rest of the open window, and a whole one.
abbrev pub allowance : ℕ → Option Bucket → ℕ
allowance limit none = limit
allowance limit (some bucket) = limit - bucket.count + limit

budget-allowance : (limit end : ℕ) (o : Option Bucket) → budget limit end o ≤ allowance limit o
budget-allowance limit end none = omega arith
budget-allowance limit end (some bucket) = ground arith

keep_open-budget :
    (limit end now : ℕ) (o : Option Bucket)
    → now < end
    → budget limit end (keep_open now o) ≤ budget limit end o
keep_open-budget limit end now none early = omega arith
keep_open-budget limit end now (some bucket) early = ground arith

sweep-budget :
    (limit end window_ms now : ℕ) (s : Limiter) (key : Text)
    → now < end
    → budget limit end ((sweep_expired_buckets window_ms now s).buckets key)
      ≤ budget limit end (s.buckets key)
unfolding sweep_expired_buckets
sweep-budget limit end window_ms now s key early =
    if-keeps
      (λ (s' : Limiter). budget limit end (s'.buckets key) ≤ budget limit end (s.buckets key))
      (ltb now (s.last_sweep_at_ms + window_ms)) (omega arith)
      (keep_open-budget limit end now (s.buckets key) early)

-- One for an admitted request.
abbrev spent : Decision → ℕ
spent allowed = 1
spent (refused seconds) = 0

-- The bucket that is set, or the one that is there.
abbrev or_kept : Option Bucket → Option Bucket → Option Bucket
or_kept none o = o
or_kept (some bucket) o = some bucket

decide-budget :
    (limit start window_ms now own : ℕ) (o : Option Bucket)
    → 1 ≤ limit
    → own ≤ limit
    → start ≤ now
    → now < start + window_ms
    → spent (decide own window_ms now o).0
        + budget limit (start + window_ms) (or_kept (decide own window_ms now o).1 o)
      ≤ budget limit (start + window_ms) o
unfolding decide
decide-budget limit start window_ms now own none some_limit small from until = ground arith
decide-budget limit start window_ms now own (some bucket) some_limit small from until = ground arith

consume-own :
    (window_ms : ℕ) (r : Request) (s : Limiter)
    → (consume window_ms r s).1.buckets r.key
      ≡ or_kept
          (decide r.limit window_ms r.now
            ((sweep_expired_buckets window_ms r.now s).buckets r.key)).1
          ((sweep_expired_buckets window_ms r.now s).buckets r.key)
unfolding consume consume_bucket
consume-own window_ms r s =
    elim (Option-cases
      (decide r.limit window_ms r.now
        ((sweep_expired_buckets window_ms r.now s).buckets r.key)).1) [
          | inl kept ↦ rw (kept, consume, consume_bucket) refl
          | inr (bucket, set) ↦ rw (set, text_eq_refl r.key, consume, consume_bucket) refl
        ]

consume-budget :
    (limit start window_ms : ℕ) (r : Request) (s : Limiter)
    → 1 ≤ limit
    → IsWithin start window_ms limit r.key r
    → spent (consume window_ms r s).0
        + budget limit (start + window_ms) ((consume window_ms r s).1.buckets r.key)
      ≤ budget limit (start + window_ms) (s.buckets r.key)
unfolding consume consume_bucket
consume-budget limit start window_ms r s some_limit w =
    let swept = sweep_expired_buckets window_ms r.now s in
    let decided =
      decide-budget limit start window_ms r.now r.limit (swept.buckets r.key) some_limit
        (w.limited (text_eq_refl r.key)) w.from w.until in
    let cleared = sweep-budget limit (start + window_ms) window_ms r.now s r.key w.until in
    rw (consume-own window_ms r s) (omega (arith, decided, cleared))

count-spent :
    (d : Decision) (later : ℕ) → (if is_allowed d then 1 + later else later) ≡ spent d + later
count-spent allowed later = refl
count-spent (refused seconds) later = omega arith

admitted-budget :
    (limit start window_ms : ℕ) (key : Text) (rs : List Request) (s : Limiter)
    → 1 ≤ limit
    → All (IsWithin start window_ms limit key) rs
    → admitted window_ms key rs s ≤ budget limit (start + window_ms) (s.buckets key)
unfolding admitted
admitted-budget limit start window_ms key [] s some_limit ws = omega arith
admitted-budget limit start window_ms key (r ∷ rs) s some_limit (w, ws) =
    let s' : Limiter = (consume window_ms r s).1 in
    let later = admitted-budget limit start window_ms key rs s' some_limit ws in
    elim (Bool-cases (text_eq r.key key)) [
      | inl own ↦
          let same : r.key ≡ key = (text_eq_iff r.key key).0 own in
          let step =
            subst
              (λ k.
                spent (consume window_ms r s).0 + budget limit (start + window_ms) (s'.buckets k)
                ≤ budget limit (start + window_ms) (s.buckets k))
              same
              (consume-budget limit start window_ms r s some_limit
                (subst (λ k. IsWithin start window_ms limit k r) (sym same) w)) in
          rw (own, admitted, count-spent (consume window_ms r s).0 (admitted window_ms key rs s'))
            (omega (arith, step, later))
      | inr other ↦
          let swept = sweep-budget limit (start + window_ms) window_ms r.now s key w.until in
          let left : s'.buckets key ≡ (sweep_expired_buckets window_ms r.now s).buckets key =
            consume-other window_ms r s key other in
          let later' : admitted window_ms key rs s'
              ≤ budget limit (start + window_ms)
                  ((sweep_expired_buckets window_ms r.now s).buckets key) =
            subst (λ o. admitted window_ms key rs s' ≤ budget limit (start + window_ms) o) left
              later in
          rw (other, admitted) (omega (arith, swept, later'))
    ]

-- Of requests that come, in any order and mixed with others, within a span as long as one window, a limiter admits
-- for one key at most what its open window has left and one limit more, and at most one limit if the key
-- had no bucket.
pub admitted-AtMost :
    (limit start window_ms : ℕ) (key : Text) (rs : List Request) (s : Limiter)
    → 1 ≤ limit
    → All (IsWithin start window_ms limit key) rs
    → admitted window_ms key rs s ≤ allowance limit (s.buckets key)
admitted-AtMost limit start window_ms key rs s some_limit ws = omega (
  arith,
  admitted-budget limit start window_ms key rs s some_limit ws,
  budget-allowance limit (start + window_ms) (s.buckets key),
)
