-- ===== src/Wire/Config.antt =====
-- The settings of lib/ghostwire-config.ts that jobs, quotes and the operator read.
use ghost_protocol.Prelude.{
  ℕ, ◌≤◌, arith, not, ◌+◌, ◌-◌, ◌*◌, Bool, false, ◌&&◌, Option, none, some, [], ◌∷◌, Text, trim,
  leb, ltb, ◌==◌, every, if◌then◌else◌,
}

abbrev pub is_digit : ℕ → Bool
is_digit c = leb b'0' c && leb c b'9'

-- `/^\d+$/.test(text)`.
unfoldable pub all_digits : Text → Bool
all_digits [] = false
all_digits (c ∷ s) = is_digit c && every is_digit s

-- `BigInt(text)` of decimal digits, and `parseInt` where the number is exact.
unfoldable pub decimal_from : ℕ → Text → ℕ
decimal_from acc [] = acc
decimal_from acc (c ∷ s) = decimal_from (acc * 10 + (c - b'0')) s

-- `parseInt` rounds a number beyond 2^53 and may answer Infinity; each is above `max`, and so is the
-- exact number.
unfoldable pub parse_bps_env : Option Text → ℕ → ℕ → ℕ
unfolding all_digits decimal_from
parse_bps_env none fallback max_bps = fallback
parse_bps_env (some raw) fallback max_bps =
    let trimmed = trim raw in
    let parsed = decimal_from 0 trimmed in
    if not (all_digits trimmed) then fallback else if ltb max_bps parsed then fallback else parsed

unfoldable pub parse_positive_big_int_env : Option Text → ℕ → ℕ
unfolding all_digits decimal_from
parse_positive_big_int_env none fallback = fallback
parse_positive_big_int_env (some raw) fallback =
    let trimmed = trim raw in
    let parsed = decimal_from 0 trimmed in
    if not (all_digits trimmed) then fallback else if ltb 0 parsed then parsed else fallback

abbrev pub max_platform_fee_bps : ℕ
max_platform_fee_bps = 1000

abbrev pub supported_mainnet_chain_id : ℕ
supported_mainnet_chain_id = 8453

-- The process's settings. Each is read once, when the module is loaded.
pub record WireSettings : Type 0 where
  pub protocol_fee_bps_env : Option Text
  pub quote_ttl_seconds : ℕ
  pub job_expiry_seconds : ℕ
  pub min_confirmations_mainnet : ℕ
  pub min_confirmations_testnet : ℕ
  -- normalizeGhostWireRequestPayload of lib/ghostwire-request.ts, on the text of a JSON value.
  pub normalize_request_payload : Text → Option Text

unfoldable pub protocol_fee_bps : WireSettings → ℕ
unfolding parse_bps_env
protocol_fee_bps cfg = parse_bps_env cfg.protocol_fee_bps_env 250 max_platform_fee_bps

unfoldable pub resolve_min_confirmations : WireSettings → ℕ → ℕ
resolve_min_confirmations cfg chain_id =
    if chain_id == supported_mainnet_chain_id
    then cfg.min_confirmations_mainnet
    else cfg.min_confirmations_testnet

abbrev pub resolve_contract_budget_amount : ℕ → ℕ
resolve_contract_budget_amount principal = principal

parse_bps_env-bound :
    (raw : Option Text) (fallback max_bps : ℕ)
    → fallback ≤ max_bps
    → parse_bps_env raw fallback max_bps ≤ max_bps
unfolding parse_bps_env
parse_bps_env-bound none fallback max_bps h = h
parse_bps_env-bound (some raw) fallback max_bps h = ground arith

pub protocol_fee_bps-bound : (cfg : WireSettings) → protocol_fee_bps cfg ≤ max_platform_fee_bps
unfolding protocol_fee_bps
protocol_fee_bps-bound cfg =
    parse_bps_env-bound cfg.protocol_fee_bps_env 250 max_platform_fee_bps (omega arith)
