-- ===== src/RateLimit/X402.antt =====
-- lib/x402-rate-limit.ts: a settlement report is counted against three buckets, in order, up to the first that
-- refuses it. What is parsed from the environment is an argument.
pub mod Charges
use ghost_protocol.Prelude.{ℕ, List, [], ◌∷◌, ◌++◌, Text, codes, to_lower_case}
use ghost_protocol.RateLimit.{
  Limiter, Decision, allowed, refused, consume_bucket, sweep_expired_buckets,
}
use ghost_protocol.RateLimit.Routes.{HttpRequest, get_client_ip}

pub data X402RateLimitAction : Type 0 where
  signer service payer_service : X402RateLimitAction

pub record X402Limits : Type 0 where
  pub window_ms : ℕ
  pub signer_limit : ℕ
  pub service_limit : ℕ
  pub payer_service_limit : ℕ

pub record Check : Type 0 where
  pub action : X402RateLimitAction
  pub key : Text
  pub limit : ℕ

-- The answer: the action that refused it, and `retryAfterSeconds`.
pub data X402Decision : Type 0 where
  accepted : X402Decision
  refused_for : X402RateLimitAction → ℕ → X402Decision

unfoldable pub consume_checks : ℕ → ℕ → List Check → Limiter → X402Decision × Limiter
unfolding consume_bucket
consume_checks window_ms now [] s = (accepted, s)
consume_checks window_ms now (check ∷ checks) s =
    let (decision, buckets) = consume_bucket check.key check.limit window_ms now s.buckets in
    let s' : Limiter = record s { buckets = buckets } in
    let rest = consume_checks window_ms now checks s' in
    elim decision [ allowed ↦ rest | refused seconds ↦ (refused_for check.action seconds, s') ]

-- The arguments of consumeX402SettlementRateLimit.
pub record X402Report : Type 0 where
  pub request : HttpRequest
  pub signer_address : Text
  pub service_slug : Text
  pub payer_identity : Text

unfoldable pub signer_check : X402Limits → X402Report → Check
unfolding get_client_ip
signer_check limits report = record {
  action = signer;
  key =
      codes "x402:signer:"
      ++ to_lower_case report.signer_address
      ++ codes ":"
      ++ to_lower_case (get_client_ip report.request);
  limit = limits.signer_limit;
}

unfoldable pub service_check : X402Limits → X402Report → Check
service_check limits report = record {
  action = service;
  key = codes "x402:service:" ++ to_lower_case report.service_slug;
  limit = limits.service_limit;
}

unfoldable pub payer_service_check : X402Limits → X402Report → Check
payer_service_check limits report = record {
  action = payer_service;
  key =
      codes "x402:payer_service:"
      ++ to_lower_case report.service_slug
      ++ codes ":"
      ++ to_lower_case report.payer_identity;
  limit = limits.payer_service_limit;
}

abbrev pub checks_of : X402Limits → X402Report → List Check
checks_of limits report =
    signer_check limits report
    ∷ service_check limits report
    ∷ payer_service_check limits report
    ∷ []

unfoldable pub consume_x402_settlement_rate_limit :
    X402Limits → ℕ → X402Report → Limiter → X402Decision × Limiter
unfolding consume_checks sweep_expired_buckets signer_check service_check payer_service_check
consume_x402_settlement_rate_limit limits now report s =
    consume_checks limits.window_ms now (checks_of limits report)
      (sweep_expired_buckets limits.window_ms now s)
