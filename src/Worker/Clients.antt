-- ===== src/Worker/Clients.antt =====
-- What the worker calls outside of this repository: an Ethereum node (ethclient.Client), the codec
-- and the signature of go-ethereum, and one field of a JSON text. A function of a tick is asked at
-- that tick.
use chain_route.Prelude.{ℕ, String, Bool, Option, List, ◌==◌, if◌then◌else◌}
use chain_route.World.{LegacyTx, Transaction}
use chain_route.Bridge.Quote.{TxEnvelope}

-- TransactionByHash: known to the chain, ethereum.NotFound, or any other error.
pub data Lookup : Type 0 where
  known not_found unreachable : Lookup

-- ExecutorEthClient and ReconcilerEthClient. `receipt_status` is the status of the receipt, if there
-- is one.
pub record EthClient : Type 0 where
  pub suggest_gas_price : ℕ → Option ℕ
  pub estimate_gas : ℕ → TxEnvelope → Option ℕ
  pub transaction_by_hash : ℕ → String → Lookup
  pub send_transaction : ℕ → Transaction → Bool
  pub receipt_status : ℕ → String → Option ℕ
  pub pending_nonce_at : ℕ → String → Option ℕ

-- evm.Wallet.SignTx and the methods of types.Transaction.
pub record Codec : Type 0 where
  pub sign_tx : LegacyTx → ℕ → Option Transaction
  pub marshal_binary : Transaction → Option (List ℕ)
  pub unmarshal_binary : List ℕ → Option Transaction
  pub tx_hash : Transaction → String
  pub hex_to_hash : String → String
  pub decode_request_id : String → Option String

-- observability.SanitizeProviderLabel.
unfoldable pub sanitize_provider_label : String → String
sanitize_provider_label name =
    if name == "across" then name else (if name == "relay" then name else "unknown")
