-- ===== src/Bridge/Quote.antt =====
-- go-api/internal/bridge/quote: quotes, unsigned envelopes, status results, and the interfaces that
-- a provider implements. An interface is a record of functions whose first argument is the tick of
-- the call, since an answer depends on when it is asked for; `none` is a returned error.
use chain_route.Prelude.{ℕ, String, Bool, Option, List}
use chain_route.Prelude.Int.{ℤ}
use chain_route.Payment.{Time}

pub data ExternalState : Type 0 where
  pending filled refunded reverted fill_failed : ExternalState

pub record StatusRequest : Type 0 where
  pub provider_reference_id : String
  pub origin_tx_hash : String

pub record StatusResult : Type 0 where
  pub state : ExternalState
  pub raw_status : String
  pub destination_tx_hash : Option String

pub record Request : Type 0 where
  pub source_chain_id : ℕ
  pub destination_chain_id : ℕ
  pub asset : String
  pub amount_base_units : ℤ

-- The input amount may be a nil *big.Int. The other amounts are read only where the quote is
-- available, and a provider sets them there.
pub record Quote : Type 0 where
  pub provider_name : String
  pub source_chain_id : ℕ
  pub destination_chain_id : ℕ
  pub asset : String
  pub input_amount_base_units : Option ℤ
  pub output_amount_base_units : ℤ
  pub fee_base_units : ℤ
  pub estimated_fill_time_sec : ℕ
  pub available : Bool
  pub quoted_at : Time
  pub expires_at : Time
  pub raw_provider_payload : String

pub record TxEnvelope : Type 0 where
  pub to : String
  pub value : Option ℤ
  pub input : List ℕ
  pub chain_id : ℕ

pub record Provider : Type 0 where
  pub name : String
  pub get_quote : ℕ → Request → Option Quote

pub record Signer : Type 0 where
  pub build_transaction : ℕ → Quote → Option TxEnvelope

pub record StatusChecker : Type 0 where
  pub check_status : ℕ → StatusRequest → Option StatusResult
