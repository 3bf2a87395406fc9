-- ===== src/RateLimit/Retry.antt =====
-- When a refused request may come again.
use ghost_protocol.Prelude.{
  ℕ, ◌+◌, ◌*◌, ◌≤◌, ◌≡◌, refl, arith, false, Option, none, some, Text, leb, ltb, Option-cases, inl,
  inr, text_eq, if-keeps, All, List, [], ◌∷◌, ap,
}
use mathlib.Core.Path.{subst}
use ghost_protocol.RateLimit.{
  after, Bucket, Limiter, allowed, refused, Request, consume, decide, consume_bucket, keep_open,
  sweep_expired_buckets, retry_after_seconds,
}

-- A bucket that is not over any later time than `until`.
abbrev OverBy : ℕ → Option Bucket → Type 0
OverBy until none = Unit
OverBy until (some bucket) = bucket.reset_at_ms ≤ until

decide-OverBy :
    (limit window_ms now until : ℕ) (o : Option Bucket)
    → OverBy until o
    → until ≤ now
    → (decide limit window_ms now o).0 ≡ allowed
unfolding decide
decide-OverBy limit window_ms now until none over late = refl
decide-OverBy limit window_ms now until (some bucket) over late = ground arith

decide-refused :
    (limit window_ms now : ℕ) (o : Option Bucket) {seconds : ℕ}
    → (decide limit window_ms now o).0 ≡ refused seconds
    → OverBy (now + seconds * 1000) o × ((decide limit window_ms now o).1 ≡ none)
unfolding decide retry_after_seconds
decide-refused limit window_ms now none e = cc
decide-refused limit window_ms now (some bucket) e = ground arith

-- A request leaves under a key what was there, or nothing if that is over, unless the key is its own.
pub consume-other :
    (window_ms : ℕ) (r : Request) (s : Limiter) (key : Text)
    → text_eq r.key key ≡ false
    → (consume window_ms r s).1.buckets key ≡ (sweep_expired_buckets window_ms r.now s).buckets key
unfolding consume consume_bucket
consume-other window_ms r s key other =
    elim (Option-cases
      (decide r.limit window_ms r.now
        ((sweep_expired_buckets window_ms r.now s).buckets r.key)).1) [
          | inl kept ↦ rw (kept, consume, consume_bucket) refl
          | inr (bucket, set) ↦ rw (set, other, consume, consume_bucket) refl
        ]

keep_open-OverBy :
    (now until : ℕ) (o : Option Bucket) → OverBy until o → OverBy until (keep_open now o)
keep_open-OverBy now until none over = tt
keep_open-OverBy now until (some bucket) over =
    if-keeps (OverBy until) (leb bucket.reset_at_ms now) tt over

sweep-OverBy :
    (window_ms now until : ℕ) (s : Limiter) (key : Text)
    → OverBy until (s.buckets key)
    → OverBy until ((sweep_expired_buckets window_ms now s).buckets key)
unfolding sweep_expired_buckets
sweep-OverBy window_ms now until s key over =
    if-keeps (λ (s' : Limiter). OverBy until (s'.buckets key))
      (ltb now (s.last_sweep_at_ms + window_ms)) over
      (keep_open-OverBy now until (s.buckets key) over)

after-OverBy :
    (window_ms until : ℕ) (rs : List Request) (s : Limiter) (key : Text)
    → All (λ r. text_eq r.key key ≡ false) rs
    → OverBy until (s.buckets key)
    → OverBy until ((after window_ms rs s).buckets key)
unfolding after
after-OverBy window_ms until [] s key others over = over
after-OverBy window_ms until (r ∷ rs) s key (other, others) over =
    after-OverBy window_ms until rs (consume window_ms r s).1 key others
      (rw (consume-other window_ms r s key other) (sweep-OverBy window_ms r.now until s key over))

consume-refused :
    (window_ms : ℕ) (r : Request) (s : Limiter) {seconds : ℕ} {s' : Limiter}
    → consume window_ms r s ≡ (refused seconds, s')
    → OverBy (r.now + seconds * 1000) (s'.buckets r.key)
unfolding consume consume_bucket
consume-refused window_ms r s {seconds} {s'} e =
    let swept = sweep_expired_buckets window_ms r.now s in
    let (over, unset) =
      decide-refused r.limit window_ms r.now (swept.buckets r.key) {seconds = seconds}
        (ap (λ x. x.0) e) in
    subst (λ (s'' : Limiter). OverBy (r.now + seconds * 1000) (s''.buckets r.key)) (ap (λ x. x.1) e)
      (rw unset over)

-- A request that is refused with a number of seconds is admitted if it comes again once they have passed,
-- whatever requests with other keys came in between and whenever they came.
pub consume-retry :
    (window_ms : ℕ) (r : Request) (s : Limiter) {seconds : ℕ} {s' : Limiter}
    → consume window_ms r s ≡ (refused seconds, s')
    → (others : List Request) → All (λ other. text_eq other.key r.key ≡ false) others
    → (later : ℕ) → r.now + seconds * 1000 ≤ later
    → (consume window_ms (record r { now = later }) (after window_ms others s')).0 ≡ allowed
unfolding consume consume_bucket
consume-retry window_ms r s {seconds} {s'} e others different later passed =
    let s'' : Limiter = after window_ms others s' in
    decide-OverBy r.limit window_ms later (r.now + seconds * 1000)
      ((sweep_expired_buckets window_ms later s'').buckets r.key)
      (sweep-OverBy window_ms later (r.now + seconds * 1000) s'' r.key (
        after-OverBy window_ms (r.now + seconds * 1000) others s' r.key different
          (consume-refused window_ms r s e)))
      passed
