-- ===== src/Wire/Quotes.antt =====
-- lib/ghostwire-store.ts, createWireQuote and the checks of a quote that prepareWireJobFromQuote makes
-- before and inside its transaction. Ids are arguments: they are random.
use ghost_protocol.Prelude.{
  ℕ, ◌+◌, ◌*◌, Bool, true, false, ◌&&◌, not, Option, none, some, Text, text_eq, is_some, is_empty,
  leb, or_else, if◌then◌else◌, ◌≡◌, ◌<◌, Option-cases, inr, arith, inl, ap,
}
use mathlib.Core.Path.{subst}
use ghost_protocol.Store.{
  ◌>>=◌, return, Result, ok, err, wire_quote_not_found, wire_quote_expired, wire_quote_consumed,
  wire_quote_mismatch,
}
use ghost_protocol.Wire.Schema.{WireQuote, WirePricing}
use ghost_protocol.Wire.Config.{WireSettings, resolve_min_confirmations, protocol_fee_bps}
use ghost_protocol.Wire.Terms.{calculate_protocol_fee_amount}
use ghost_protocol.Wire.Tables.{W, create_quote}

pub record QuoteInput : Type 0 where
  pub client_address : Text
  pub provider_address : Text
  pub provider_agent_id : Option Text
  pub provider_service_slug : Option Text
  pub evaluator_address : Text
  pub chain_id : ℕ
  pub principal_amount : ℕ
  pub ttl_seconds : Option ℕ

abbrev pub quote_of : WireSettings → Text → ℕ → QuoteInput → WireQuote
quote_of cfg quote_id now input =
    let ttl_seconds = or_else input.ttl_seconds cfg.quote_ttl_seconds in
    record {
      quote_id = quote_id;
      client_address = some input.client_address;
      provider_address = input.provider_address;
      provider_agent_id = input.provider_agent_id;
      provider_service_slug = input.provider_service_slug;
      evaluator_address = input.evaluator_address;
      chain_id = input.chain_id;
      principal_amount = input.principal_amount;
      protocol_fee_amount = calculate_protocol_fee_amount cfg input.principal_amount;
      network_reserve_amount = 0;
      ttl_seconds = ttl_seconds;
      expires_at = now + ttl_seconds * 1000;
      consumed_at = none;
    }

pub record QuoteAnswer : Type 0 where
  pub quote_id : Text
  pub expires_at : ℕ
  pub pricing : WirePricing
  pub min_confirmations : ℕ

unfoldable pub quote_answer : WireSettings → WireQuote → QuoteAnswer
unfolding resolve_min_confirmations
quote_answer cfg quote = record {
  quote_id = quote.quote_id;
  expires_at = quote.expires_at;
  pricing = record {
    principal = quote.principal_amount;
    protocol_fee = quote.protocol_fee_amount;
    bps = protocol_fee_bps cfg;
    network_reserve = 0;
    chain_id = quote.chain_id;
  };
  min_confirmations = resolve_min_confirmations cfg quote.chain_id;
}

unfoldable pub create_wire_quote : WireSettings → Text → ℕ → QuoteInput → W QuoteAnswer
unfolding create_quote calculate_protocol_fee_amount quote_answer
create_wire_quote cfg quote_id now input =
    create_quote (quote_of cfg quote_id now input) >>= λ quote. return (quote_answer cfg quote)

-- The request, with its payload normalized and its specification's hash resolved.
pub record PrepareInput : Type 0 where
  pub quote_id : Text
  pub client_address : Text
  pub provider_address : Text
  pub provider_agent_id : Option Text
  pub provider_service_slug : Option Text
  pub evaluator_address : Text
  pub spec_hash : Text
  pub request_payload : Option Text
  pub metadata_uri : Option Text
  pub webhook_target_url : Option Text
  pub webhook_secret : Option Text

-- `a && a !== b`, and `a && b && a !== b`.
abbrev pub differs : Option Text → Text → Bool
differs none t = false
differs (some s) t = not (is_empty s) && not (text_eq s t)

abbrev pub both_differ : Option Text → Option Text → Bool
both_differ s none = false
both_differ s (some t) = not (is_empty t) && differs s t

unfoldable pub check_wire_quote : ℕ → PrepareInput → Option WireQuote → Result WireQuote
check_wire_quote now input none = err wire_quote_not_found
check_wire_quote now input (some quote) =
    if leb quote.expires_at now
    then err wire_quote_expired
    else if is_some quote.consumed_at
    then err wire_quote_consumed
    else if differs quote.client_address input.client_address
    then err (wire_quote_mismatch "Quote client address does not match create request.")
    else if not (text_eq quote.provider_address input.provider_address)
    then err (wire_quote_mismatch "Quote provider address does not match create request.")
    else if both_differ quote.provider_agent_id input.provider_agent_id
    then err (wire_quote_mismatch "Quote provider agent attribution does not match create request.")
    else if both_differ quote.provider_service_slug input.provider_service_slug
    then err
        (wire_quote_mismatch "Quote provider service attribution does not match create request.")
    else if not (text_eq quote.evaluator_address input.evaluator_address)
    then err (wire_quote_mismatch "Quote evaluator address does not match create request.")
    else ok quote

-- What a quote that passed the checks is.
pub record IsUsable (now : ℕ) (input : PrepareInput) (quote : WireQuote) : Type 0 where
  pub unexpired : now < quote.expires_at
  pub unconsumed : quote.consumed_at ≡ none
  pub provider : text_eq quote.provider_address input.provider_address ≡ true
  pub evaluator : text_eq quote.evaluator_address input.evaluator_address ≡ true

pub check_wire_quote-IsUsable :
    (now : ℕ) (input : PrepareInput) (o : Option WireQuote) {quote : WireQuote}
    → check_wire_quote now input o ≡ ok quote
    → (o ≡ some quote) × IsUsable now input quote
unfolding check_wire_quote
check_wire_quote-IsUsable now input none e = cc
check_wire_quote-IsUsable now input (some q) {quote} e = elim (Option-cases q.consumed_at) [
  | inr (at, spent) ↦ absurd (ground arith)
  | inl free ↦
      let same : q ≡ quote = ground arith in
      let usable : IsUsable now input q = record {
        unexpired = ground arith;
        unconsumed = free;
        provider = ground arith;
        evaluator = ground arith;
      } in
      (ap some same, subst (IsUsable now input) same usable)
]
