-- ===== src/Examples.antt =====
-- Concrete data: a wallet, a merchant and a ticket.
pub mod Holds
pub mod Credits
pub mod Settlement
pub mod RateLimit
pub mod Wire
use ghost_protocol.Prelude.{
  ltb, if◌then◌else◌, ℕ, ◌≡◌, refl, Bool, true, false, Option, none, some, List, [], ◌∷◌, Text,
  codes, arith, find, sum_by, count, text_eq,
}
use ghost_protocol.Prelude.Int.{ℤ, pos}
use ghost_protocol.Store.{CreditBalance, FulfillmentHold, DelegatedSigner, Db, ok, err}
use ghost_protocol.Env.{Env}
use ghost_protocol.Holds.Create.{create_fulfillment_hold}
use ghost_protocol.Holds.Open.{CreateFulfillmentHoldInput}
use ghost_protocol.Holds.Capture.{capture_fulfillment_hold}
use ghost_protocol.Holds.Settle.{CaptureFulfillmentHoldInput}

-- The order of code units.
unfoldable pub text_le : Text → Text → Bool
text_le [] t = true
text_le (c ∷ s) [] = false
text_le (c ∷ s) (d ∷ t) =
    let rest = text_le s t in if ltb c d then true else if ltb d c then false else rest

-- Addresses are their own checksummed form, and a hash is its text.
abbrev pub env : Env
env = record {
  get_address = λ a. some a;
  keccak256_of_string = λ t. t;
  locale_le = text_le;
  credit_ledger_enabled = true;
  gate_nonce_store_enabled = true;
}

abbrev pub alice : Text
alice = codes "0xa"

abbrev pub merchant : Text
merchant = codes "0xb"

abbrev pub service : Text
service = codes "agent-7"

abbrev pub funded_db : Db
funded_db = record {
  balances =
      record { wallet_address = alice; credits = 100; held_credits = 0; last_synced_block = 5 }
      ∷ [];
  ledger = [];
  nonces = [];
  holds = [];
  attempts = [];
  signers =
      record { gateway_config_id = codes "gw"; signer_address = merchant; is_active = true } ∷ [];
  earnings = [];
  rollups = [];
  batches = [];
  pricing = [];
}

abbrev pub ticket_request : CreateFulfillmentHoldInput
ticket_request = record {
  wallet_address = alice;
  service_slug = service;
  agent_id = none;
  gateway_config_id = some (codes "gw");
  merchant_owner_address = merchant;
  request_method = codes "POST";
  request_path = codes "/run";
  query_hash = codes "0x1";
  body_hash = codes "0x2";
  cost = pos 30;
  ticket_id = codes "0xt1";
  issued_at = 1000;
  expires_at = 2000;
  request_nonce = codes "n1";
  request_auth_issued_at_seconds = 1;
  request_auth_signature = none;
  wallet_hold_cap = 3;
}

abbrev pub proof : CaptureFulfillmentHoldInput
proof = record {
  ticket_id = codes "0xt1";
  delivery_proof_id = codes "0xp1";
  merchant_signer = merchant;
  service_slug = service;
  completed_at = 1500;
  status_code = pos 200;
  latency_ms = pos 12;
}

abbrev pub held_db : Db
unfolding create_fulfillment_hold
held_db = (create_fulfillment_hold env (codes "h1") 1000 ticket_request funded_db).1

abbrev pub captured_db : Db
unfolding capture_fulfillment_hold create_fulfillment_hold
captured_db = (capture_fulfillment_hold env (codes "e1") 1500 proof held_db).1
