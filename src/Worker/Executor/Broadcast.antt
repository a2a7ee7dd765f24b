-- ===== src/Worker/Executor/Broadcast.antt =====
-- executor.go: signing, and the broadcast that first asks the chain for the persisted hash.
use chain_route.Prelude.{ℕ, String, Bool, true, false, Option, none, some, List, ◌∷◌, if◌then◌else◌}
use chain_route.Payment.{Execution}
use chain_route.Bridge.Quote.{Quote as LiveQuote, TxEnvelope}
use chain_route.World.{
  LegacyTx, Transaction, M, pure, fail, or_fail, external, emit, ◌>>=◌, ◌>>◌, broadcasts,
  gas_price_failed, sign_failed, marshal_failed, unmarshal_failed, not_signed, lookup_failed,
  send_failed,
}
use chain_route.Store.Payments.{mark_submitted}
use chain_route.Store.Executions.{persist_signed_execution, mark_execution_broadcast}
use chain_route.Worker.Clients.{Lookup, known, not_found, unreachable, EthClient}
use chain_route.Worker.Executor.Checks.{Executor, extract_provider_reference_id}

-- One SendTransaction. The call is recorded whatever its answer, since a node may have accepted the
-- transaction before the error.
unfoldable pub send_transaction : EthClient → Transaction → M Bool
send_transaction client tx env w =
    let (r, w') = external (λ n. client.send_transaction n tx) env w in
    (r, record w' { sent = tx ∷ w'.sent })

-- Only ethereum.NotFound is a licence to send, and what is sent are the persisted bytes.
unfoldable pub send_persisted : Executor → List ℕ → Lookup → M Bool
send_persisted e raw known = pure false
send_persisted e raw unreachable = fail lookup_failed
send_persisted e raw not_found = do
  tx ← or_fail (e.codec.unmarshal_binary raw) unmarshal_failed
  accepted ← send_transaction e.origin_client tx
  if accepted then pure true else fail send_failed

-- `true`: this call issued a new SendTransaction.
unfoldable pub broadcast_with_recovery : Executor → Option String → Option (List ℕ) → M Bool
unfolding send_persisted
broadcast_with_recovery e (some hash) (some raw) = do
  found ← external (λ n. e.origin_client.transaction_by_hash n (e.codec.hex_to_hash hash))
  send_persisted e raw found
broadcast_with_recovery e _ _ = fail not_signed

-- const fallbackGasLimit.
abbrev pub fallback_gas_limit : ℕ
fallback_gas_limit = 500000

abbrev pub gas_or_fallback : Option ℕ → ℕ
gas_or_fallback none = fallback_gas_limit
gas_or_fallback (some g) = g

abbrev pub unsigned_tx : Execution → TxEnvelope → ℕ → ℕ → LegacyTx
unsigned_tx exec envelope gas gas_price = record {
  nonce = exec.nonce;
  to = envelope.to;
  value = envelope.value;
  gas = gas;
  gas_price = gas_price;
  input = envelope.input;
}

-- The two statements behind a broadcast.
unfoldable pub record_broadcast : Execution → M (Unit {0})
record_broadcast exec = do mark_execution_broadcast exec.id; mark_submitted exec.payment_id; pure tt

-- Estimate, sign with the allocated nonce, persist, and only then broadcast.
unfoldable pub sign_and_broadcast_fresh :
    Executor → Execution → TxEnvelope → LiveQuote → String → M (Unit {0})
unfolding broadcast_with_recovery record_broadcast
sign_and_broadcast_fresh e exec envelope fresh_quote provider_label = do
  price ← external (λ n. e.origin_client.suggest_gas_price n)
  gas_price ← or_fail price gas_price_failed
  estimate ← external (λ n. e.origin_client.estimate_gas n envelope)
  let legacy = unsigned_tx exec envelope (gas_or_fallback estimate) gas_price
  signed_tx ← or_fail (e.codec.sign_tx legacy envelope.chain_id) sign_failed
  raw_tx ← or_fail (e.codec.marshal_binary signed_tx) marshal_failed
  let hash = e.codec.tx_hash signed_tx
  persist_signed_execution exec.id raw_tx hash (extract_provider_reference_id e fresh_quote)
  sent ← broadcast_with_recovery e (some hash) (some raw_tx)
  if sent then emit (broadcasts provider_label) else pure tt
  record_broadcast exec
