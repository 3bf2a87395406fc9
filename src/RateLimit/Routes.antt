-- ===== src/RateLimit/Routes.antt =====
-- The limiters of the artifacts route (lib/ghostwire-rate-limit.ts), of the merchant gateway
-- (lib/agent-gateway-rate-limit.ts) and of fulfillment (lib/fulfillment-rate-limit.ts): what each makes
-- of a request. What fulfillment parses from the environment is an argument.
use ghost_protocol.Prelude.{
  ℕ, min, max, Option, none, some, [], ◌∷◌, ◌++◌, Text, codes, trim, to_lower_case, or_else,
  non_empty, trim_or_null, ◌==◌, if◌then◌else◌,
}
use ghost_protocol.RateLimit.{Limiter, Decision, Request, consume}

-- The headers x-forwarded-for and x-real-ip.
pub record HttpRequest : Type 0 where
  pub forwarded_for : Option Text
  pub real_ip : Option Text

-- `text.split(",")[0]`.
abbrev pub until_comma : Text → Text
until_comma [] = []
until_comma (c ∷ s) = if c == b',' then [] else c ∷ until_comma s

abbrev pub first_forwarded : Option Text → Option Text
first_forwarded none = none
first_forwarded (some header) = non_empty (trim (until_comma header))

unfoldable pub get_client_ip : HttpRequest → Text
get_client_ip request =
    or_else (first_forwarded request.forwarded_for)
      (or_else (trim_or_null request.real_ip) (codes "unknown"))

-- `${a}:${b}:${c}:${d}`.
abbrev pub join_key : Text → Text → Text → Text → Text
join_key a b c d = a ++ codes ":" ++ b ++ codes ":" ++ c ++ codes ":" ++ d

abbrev pub window_ms : ℕ
window_ms = 60_000

abbrev pub artifacts_per_window : ℕ
artifacts_per_window = 20

unfoldable pub ghost_wire_request : ℕ → HttpRequest → Text → Option Text → Request
unfolding get_client_ip
ghost_wire_request now request job_id actor_address =
    let ip = to_lower_case (get_client_ip request) in
    let actor = to_lower_case (or_else actor_address (codes "anonymous")) in
    record {
      key = join_key (codes "artifacts") job_id actor ip;
      limit = artifacts_per_window;
      now = now;
    }

unfoldable pub consume_ghost_wire_rate_limit :
    ℕ → HttpRequest → Text → Option Text → Limiter → Decision × Limiter
unfolding consume ghost_wire_request
consume_ghost_wire_rate_limit now request job_id actor_address =
    consume window_ms (ghost_wire_request now request job_id actor_address)

pub data AgentGatewayRateLimitAction : Type 0 where
  config verify delegated_signer_register delegated_signer_revoke : AgentGatewayRateLimitAction

abbrev pub gateway_action_text : AgentGatewayRateLimitAction → Text
gateway_action_text config = codes "config"
gateway_action_text verify = codes "verify"
gateway_action_text delegated_signer_register = codes "delegated_signer_register"
gateway_action_text delegated_signer_revoke = codes "delegated_signer_revoke"

abbrev pub gateway_limit : AgentGatewayRateLimitAction → ℕ
gateway_limit config = 10
gateway_limit verify = 12
gateway_limit delegated_signer_register = 8
gateway_limit delegated_signer_revoke = 12

unfoldable pub agent_gateway_request :
    ℕ → HttpRequest → AgentGatewayRateLimitAction → Option Text → Option Text → Request
unfolding get_client_ip
agent_gateway_request now request action actor_address agent_id =
    let ip = to_lower_case (get_client_ip request) in
    let actor = to_lower_case (or_else actor_address (codes "unknown")) in
    record {
      key = join_key (gateway_action_text action) (or_else agent_id (codes "unknown")) actor ip;
      limit = gateway_limit action;
      now = now;
    }

unfoldable pub consume_agent_gateway_rate_limit :
    ℕ
    → HttpRequest
    → AgentGatewayRateLimitAction
    → Option Text
    → Option Text
    → Limiter
    → Decision × Limiter
unfolding consume agent_gateway_request
consume_agent_gateway_rate_limit now request action actor_address agent_id =
    consume window_ms (agent_gateway_request now request action actor_address agent_id)

pub data FulfillmentRateLimitAction : Type 0 where
  ticket capture expire_sweep gate : FulfillmentRateLimitAction

-- The five numbers that parsePositiveInt reads from the environment.
pub record FulfillmentLimits : Type 0 where
  pub parsed_window_ms : ℕ
  pub ticket_limit : ℕ
  pub capture_limit : ℕ
  pub expire_sweep_limit : ℕ
  pub gate_limit : ℕ

unfoldable pub get_window_ms : FulfillmentLimits → ℕ
get_window_ms limits = max 1_000 (min 600_000 limits.parsed_window_ms)

abbrev pub fulfillment_action_text : FulfillmentRateLimitAction → Text
fulfillment_action_text ticket = codes "ticket"
fulfillment_action_text capture = codes "capture"
fulfillment_action_text expire_sweep = codes "expire_sweep"
fulfillment_action_text gate = codes "gate"

abbrev pub limits_per_window : FulfillmentLimits → FulfillmentRateLimitAction → ℕ
limits_per_window limits ticket = limits.ticket_limit
limits_per_window limits capture = limits.capture_limit
limits_per_window limits expire_sweep = limits.expire_sweep_limit
limits_per_window limits gate = limits.gate_limit

unfoldable pub fulfillment_request :
    FulfillmentLimits
    → ℕ
    → HttpRequest
    → FulfillmentRateLimitAction
    → Option Text
    → Option Text
    → Request
unfolding get_client_ip
fulfillment_request limits now request action scope_key actor_key =
    let ip = to_lower_case (get_client_ip request) in
    let actor = to_lower_case (or_else actor_key (codes "anonymous")) in
    let scope = to_lower_case (or_else scope_key (codes "global")) in
    record {
      key = join_key (fulfillment_action_text action) scope actor ip;
      limit = limits_per_window limits action;
      now = now;
    }

unfoldable pub consume_fulfillment_rate_limit :
    FulfillmentLimits
    → ℕ
    → HttpRequest
    → FulfillmentRateLimitAction
    → Option Text
    → Option Text
    → Limiter
    → Decision × Limiter
unfolding consume fulfillment_request get_window_ms
consume_fulfillment_rate_limit limits now request action scope_key actor_key =
    consume (get_window_ms limits)
      (fulfillment_request limits now request action scope_key actor_key)
