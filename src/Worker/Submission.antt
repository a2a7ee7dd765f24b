-- ===== src/Worker/Submission.antt =====
-- executor.go, signAndBroadcastFresh: the run in which everything is answered.
use chain_route.Prelude.{ℕ, suc, ◌+◌, true, some, List, ◌≡◌}
use chain_route.Payment.{Execution, Time}
use chain_route.Bridge.Quote.{Quote as LiveQuote, TxEnvelope}
use chain_route.Db.{Db}
use chain_route.World.{World, Env, Transaction}
use chain_route.Store.Executions.{persist_stmt, broadcast_stmt}
use chain_route.Worker.Clients.{not_found}
use chain_route.Worker.Executor.Checks.{Executor, extract_provider_reference_id}
use chain_route.Worker.Executor.Broadcast.{unsigned_tx, gas_or_fallback, send_transaction}

-- The chain, the codec and the broker of one run, as they answer.
pub record Answers (e : Executor) (exec : Execution) (envelope : TxEnvelope) (n : ℕ) : Type 0 where
  pub price : ℕ
  pub signed : Transaction
  pub raw : List ℕ
  pub tx : Transaction
  pub priced : e.origin_client.suggest_gas_price n ≡ some price
  pub signs :
      e.codec.sign_tx
        (unsigned_tx exec envelope
          (gas_or_fallback (e.origin_client.estimate_gas (suc n) envelope))
          price)
        envelope.chain_id
      ≡ some signed
  pub encodes : e.codec.marshal_binary signed ≡ some raw
  pub decodes : e.codec.unmarshal_binary raw ≡ some tx
  pub unknown :
      e.origin_client.transaction_by_hash (n + 3) (e.codec.hex_to_hash (e.codec.tx_hash signed))
      ≡ not_found
  pub accepted : e.origin_client.send_transaction (n + 4) tx ≡ true

-- The database before the payment is marked SUBMITTED.
abbrev before_submit : Executor → Execution → LiveQuote → Transaction → List ℕ → Env → World → Db
before_submit e exec q signed raw env w =
    (broadcast_stmt exec.id env (suc (suc (suc (suc (suc w.tick)))))
      (persist_stmt exec.id raw (e.codec.tx_hash signed) (extract_provider_reference_id e q) env
        (suc (suc w.tick)) w.db).1).1

-- The row that was there, with what a broadcast leaves in it.
abbrev pub submitted_execution :
    Executor → LiveQuote → Transaction → List ℕ → Time → Execution → Execution
submitted_execution e q signed raw t x = record x {
  raw_signed_tx = some raw;
  signed_tx_hash = some (e.codec.tx_hash signed);
  provider_reference_id = extract_provider_reference_id e q;
  broadcast_at = some t;
  updated_at = t;
}
