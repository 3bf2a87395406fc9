-- ===== src/RateLimit.antt =====
-- The rate limits of requests: lib/ghostwire-rate-limit.ts, lib/agent-gateway-rate-limit.ts,
-- lib/fulfillment-rate-limit.ts and lib/x402-rate-limit.ts, which keep the same buckets. A Map is a
-- function from keys; times are milliseconds.
pub mod Routes
pub mod X402
pub mod Admitted
pub mod Retry
pub mod Sweep
use ghost_protocol.Prelude.{
  ℕ, ◌+◌, ◌-◌, ◌/◌, max, ◌≡◌, ◌⊎◌, inl, inr, refl, Bool, true, false, Option, none, some, List, [],
  ◌∷◌, Text, text_eq, leb, ltb, if◌then◌else◌,
}

pub record Bucket : Type 0 where
  pub count : ℕ
  pub reset_at_ms : ℕ

pub record Limiter : Type 0 where
  pub buckets : Text → Option Bucket
  pub last_sweep_at_ms : ℕ

-- The answer, with `retryAfterSeconds` of a refusal.
pub data Decision : Type 0 where
  allowed : Decision
  refused : ℕ → Decision

pub Decision-cases : (d : Decision) → (d ≡ allowed) ⊎ ((seconds : ℕ) × (d ≡ refused seconds))
Decision-cases allowed = inl refl
Decision-cases (refused seconds) = inr (seconds, refl)

-- `buckets.set`.
abbrev pub set_bucket : Text → Bucket → (Text → Option Bucket) → Text → Option Bucket
set_bucket key bucket buckets other = if text_eq key other then some bucket else buckets other

-- A bucket whose window is over is deleted.
abbrev pub keep_open : ℕ → Option Bucket → Option Bucket
keep_open now none = none
keep_open now (some bucket) = if leb bucket.reset_at_ms now then none else some bucket

-- The source's test is on `now - lastSweepAtMs`, which may be negative.
unfoldable pub sweep_expired_buckets : ℕ → ℕ → Limiter → Limiter
sweep_expired_buckets window_ms now s =
    if ltb now (s.last_sweep_at_ms + window_ms)
    then s
    else record { buckets = λ key. keep_open now (s.buckets key); last_sweep_at_ms = now }

-- `Math.max(1, Math.ceil((resetAtMs - nowMs) / 1000))`, where the bucket is open.
unfoldable pub retry_after_seconds : ℕ → ℕ → ℕ
retry_after_seconds reset_at_ms now = max 1 ((reset_at_ms - now + 999) / 1000)

abbrev pub fresh_bucket : ℕ → ℕ → Bucket
fresh_bucket window_ms now = record { count = 1; reset_at_ms = now + window_ms }

-- What happens to a request that finds `existing` under its key: the answer, and the bucket that is
-- set, if one is.
unfoldable pub decide : ℕ → ℕ → ℕ → Option Bucket → Decision × Option Bucket
unfolding retry_after_seconds
decide limit window_ms now none = (allowed, some (fresh_bucket window_ms now))
decide limit window_ms now (some existing) =
    if leb existing.reset_at_ms now
    then (allowed, some (fresh_bucket window_ms now))
    else if leb limit existing.count
    then (refused (retry_after_seconds existing.reset_at_ms now), none)
    else (allowed, some (record existing { count = existing.count + 1 }))

abbrev pub set_if : Text → Option Bucket → (Text → Option Bucket) → Text → Option Bucket
set_if key none buckets = buckets
set_if key (some bucket) buckets = set_bucket key bucket buckets

unfoldable pub consume_bucket :
    Text → ℕ → ℕ → ℕ → (Text → Option Bucket) → Decision × (Text → Option Bucket)
unfolding decide
consume_bucket key limit window_ms now buckets =
    let (decision, bucket) = decide limit window_ms now (buckets key) in
    (decision, set_if key bucket buckets)

-- A request: the key and the limit that its route makes of it, and its time.
pub record Request : Type 0 where
  pub key : Text
  pub limit : ℕ
  pub now : ℕ

-- A whole call of a limiter: the sweep, then the bucket.
unfoldable pub consume : ℕ → Request → Limiter → Decision × Limiter
unfolding sweep_expired_buckets consume_bucket
consume window_ms r s =
    let swept = sweep_expired_buckets window_ms r.now s in
    let (decision, buckets) = consume_bucket r.key r.limit window_ms r.now swept.buckets in
    (decision, record swept { buckets = buckets })

-- The answers to a sequence of requests.
unfoldable pub decisions : ℕ → List Request → Limiter → List Decision
unfolding consume
decisions window_ms [] s = []
decisions window_ms (r ∷ rs) s =
    let (decision, s') = consume window_ms r s in decision ∷ decisions window_ms rs s'

abbrev pub is_allowed : Decision → Bool
is_allowed allowed = true
is_allowed (refused seconds) = false

-- How many requests with the key are admitted.
unfoldable pub admitted : ℕ → Text → List Request → Limiter → ℕ
unfolding consume
admitted window_ms key [] s = 0
admitted window_ms key (r ∷ rs) s =
    let (decision, s') = consume window_ms r s in
    let later = admitted window_ms key rs s' in
    if text_eq r.key key then (if is_allowed decision then 1 + later else later) else later

-- The limiter after a sequence of requests.
unfoldable pub after : ℕ → List Request → Limiter → Limiter
unfolding consume
after window_ms [] s = s
after window_ms (r ∷ rs) s = after window_ms rs (consume window_ms r s).1
