-- ===== src/Env.antt =====
-- What the code takes from outside the repository, as one record of functions and settings.
use mathlib.Core.Bool.{Bool}
use mathlib.Core.Option.{Option}
use ghost_protocol.Prelude.{Text}

pub record Env : Type 0 where
  -- viem's `getAddress`; `none` where it throws.
  pub get_address : Text → Option Text
  -- viem's `keccak256(stringToHex(text))`.
  pub keccak256_of_string : Text → Text
  -- `a.localeCompare(b) <= 0`, in the order of the runtime's locale.
  pub locale_le : Text → Text → Bool
  -- GHOST_CREDIT_LEDGER_ENABLED and GHOST_GATE_NONCE_STORE_ENABLED.
  pub credit_ledger_enabled : Bool
  pub gate_nonce_store_enabled : Bool
