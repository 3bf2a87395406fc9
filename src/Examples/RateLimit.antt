-- ===== src/Examples/RateLimit.antt =====
-- Limiters on concrete requests.
use ghost_protocol.Prelude.{
  ℕ, ◌+◌, ◌*◌, ◌≤◌, ◌≡◌, refl, arith, Bool, true, false, Option, none, some, List, [], ◌∷◌, ◌++◌,
  Text, codes, All, ltb, leb, text_eq, if◌then◌else◌, ◌<◌, ap,
}
use ghost_protocol.RateLimit.{
  Limiter, allowed, refused, Request, consume, decisions, admitted, after,
}
use ghost_protocol.RateLimit.Routes.{get_client_ip}
use ghost_protocol.RateLimit.Admitted.{IsWithin, admitted-AtMost}
use ghost_protocol.RateLimit.Retry.{consume-retry}
use ghost_protocol.RateLimit.Sweep.{decisions-unswept, unswept_decisions}
use ghost_protocol.RateLimit.X402.{
  X402Limits, X402Report, refused_for, payer_service, consume_x402_settlement_rate_limit,
  signer_check, service_check,
}
use ghost_protocol.RateLimit.X402.Charges.{Charged, consume_x402_settlement_rate_limit-Charged}

abbrev idle : Limiter
idle = record { buckets = λ key. none; last_sweep_at_ms = 0 }

abbrev at : ℕ → Request
at now = record { key = codes "a"; limit = 2; now = now }

abbrev other_at : ℕ → Request
other_at now = record { key = codes "b"; limit = 2; now = now }

abbrev burst : List Request
burst = at 100 ∷ at 200 ∷ other_at 250 ∷ at 300 ∷ at 1_200 ∷ []

burst_lem : decisions 1_000 burst idle ≡ allowed ∷ allowed ∷ allowed ∷ refused 1 ∷ allowed ∷ []
unfolding decisions ghost_protocol.Prelude.text_eq
burst_lem = refl

-- The key `a` has used one of two in a window that ends at 1,100.
abbrev begun : Limiter
begun = record {
  buckets = λ key.
      if text_eq (codes "a") key then some (record { count = 1; reset_at_ms = 1_100 }) else none;
  last_sweep_at_ms = 0;
}

abbrev span : List Request
span = at 300 ∷ at 900 ∷ other_at 950 ∷ at 1_150 ∷ at 1_200 ∷ []

within :
    (r : Request) → r.limit ≤ 2 → 250 ≤ r.now → r.now < 1_250 → IsWithin 250 1_000 2 (codes "a") r
within r limited from until = record { from = from; until = until; limited = λ own. limited }

span-IsWithin : All (IsWithin 250 1_000 2 (codes "a")) span
span-IsWithin = (
  within (at 300) (omega arith) (omega arith) (omega arith),
  (
    within (at 900) (omega arith) (omega arith) (omega arith),
    (
      within (other_at 950) (omega arith) (omega arith) (omega arith),
      (
        within (at 1_150) (omega arith) (omega arith) (omega arith),
        (within (at 1_200) (omega arith) (omega arith) (omega arith), tt),
      ),
    ),
  ),
)

-- The bound is reached.
admitted_lem : admitted 1_000 (codes "a") span begun ≡ 3
unfolding admitted ghost_protocol.Prelude.text_eq
admitted_lem = refl

admitted-AtMost_example : admitted 1_000 (codes "a") span begun ≤ 3
unfolding ghost_protocol.Prelude.text_eq
admitted-AtMost_example =
    admitted-AtMost 2 250 1_000 (codes "a") span begun (omega arith) span-IsWithin

abbrev full : Limiter
full = record begun {
  buckets = λ key.
      if text_eq (codes "a") key then some (record { count = 2; reset_at_ms = 1_100 }) else none;
}

consume_lem : consume 1_000 (at 300) full ≡ (refused 1, full)
unfolding consume ghost_protocol.Prelude.text_eq
consume_lem = refl

consume-retry_example :
    (consume 1_000 (at 1_300) (after 1_000 (other_at 400 ∷ other_at 1_150 ∷ []) full)).0 ≡ allowed
unfolding ghost_protocol.Prelude.text_eq
consume-retry_example =
    consume-retry 1_000 (at 300) full consume_lem (other_at 400 ∷ other_at 1_150 ∷ [])
      (refl, (refl, tt)) 1_300 (omega arith)

decisions-unswept_example : decisions 1_000 burst idle ≡ unswept_decisions 1_000 burst (λ key. none)
decisions-unswept_example =
    decisions-unswept 1_000 0 burst idle
      (omega arith, (omega arith, (omega arith, (omega arith, (omega arith, tt)))))

abbrev limits : X402Limits
limits = record { window_ms = 1_000; signer_limit = 10; service_limit = 5; payer_service_limit = 1 }

abbrev report : X402Report
report = record {
  request = record { forwarded_for = some (codes " 10.0.0.1, 10.0.0.2"); real_ip = none };
  signer_address = codes "0xAb";
  service_slug = codes "maps";
  payer_identity = codes "0x01";
}

ip_lem : get_client_ip report.request ≡ codes "10.0.0.1"
unfolding get_client_ip ghost_protocol.Prelude.trim
ip_lem = refl

-- The payer's only report of the window has been made.
abbrev paid : Limiter
unfolding consume_x402_settlement_rate_limit
paid = (consume_x402_settlement_rate_limit limits 100 report idle).1

refused_lem :
    (consume_x402_settlement_rate_limit limits 200 report paid).0 ≡ refused_for payer_service 1
unfolding consume_x402_settlement_rate_limit paid ghost_protocol.Prelude.text_eq
    ghost_protocol.Prelude.to_lower_case ghost_protocol.Prelude.trim
refused_lem = refl

consume_x402_settlement_rate_limit-Charged_example :
    Charged 200
      (signer_check limits report).key
      paid
      (consume_x402_settlement_rate_limit limits 200 report paid).1
    × Charged 200
        (service_check limits report).key
        paid
        (consume_x402_settlement_rate_limit limits 200 report paid).1
consume_x402_settlement_rate_limit-Charged_example =
    consume_x402_settlement_rate_limit-Charged limits 200 report paid
      (ap (λ d. (d, (consume_x402_settlement_rate_limit limits 200 report paid).1)) refused_lem)
