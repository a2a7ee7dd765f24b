-- ===== src/Tests.antt =====
-- A small database, chain and provider, and the theorems applied to them.
mod Witnesses
mod StoreWitnesses
mod Runs
mod BridgeWitnesses
mod HandlerWitnesses
use chain_route.Prelude.{
  ℕ, ◌+◌, ◌-◌, ◌/◌, ◌<◌, String, Bool, true, false, Option, none, some, List, [], ◌∷◌, ◌≡◌, refl,
  ◌⊎◌, eqb, if◌then◌else◌, ltb, ◌*◌, arith, ◌==◌, eq_refl,
}
use chain_route.Prelude.Int.{ℤ, pos}
use chain_route.Payment.{
  Status, submitted, routed, processing, completed, ExecutionMode, simulated, testnet, Time, Quote,
  Payment, Execution, RoutedPayment, ExternalStatus, status_eq,
}
use chain_route.Db.{OutboxRow, Db, PaymentRow, NonceRow, empty_db}
use chain_route.Db.Table.{find, modify, update_if, exists}
use chain_route.World.{World, Env, Fault, fine, Transaction, ok, monad, Result}
use chain_route.Bridge.Quote.{
  StatusResult, filled, Quote as LiveQuote, TxEnvelope, Provider, Signer,
}
use chain_route.Store.Payments.{
  payment_row, payment_key, claim_stmt, complete_stmt, transition, claim_row, complete_row,
}
use chain_route.Store.Executions.{CreateExecutionParams, try_create_stmt, insert_execution}
use chain_route.Store.Create.{
  create_or_get_payment, insert_payment_stmt, insert_hops, find_key_stmt, request_matches,
}
use chain_route.Store.Create.Outcomes.{Fails, has_key, Inserts, insert_payment-cases}
use chain_route.Store.Create.Retry.{insert-find_key}
use chain_route.Store.Quotes.{insert_payment_quotes}
use chain_route.Store.Evolution.{Evolves, Evolves-refl, Fair}
use chain_route.Store.Once.{claim-claim, Settled, complete-Settled}
use chain_route.Store.Nonces.{Allocates, try_create-cases, try_create-try_create}
use chain_route.Execution.{execute, codes}
use chain_route.Worker.Clients.{Lookup, not_found, EthClient, Codec}
use chain_route.Worker.Executor.Checks.{Executor, exceeds_baseline, validate_envelope}
use chain_route.Worker.Executor.Broadcast.{sign_and_broadcast_fresh}
use chain_route.Worker.Executor.{execute_testnet_payment, drive_execution_forward}
use chain_route.Worker.Processor.{Processor, terminal_of, handle_routed_payment}
use chain_route.Worker.Recovery as Recovery
use chain_route.Worker.Reconciler.{Reconciler}
use chain_route.Worker.Reconciler as Reconciler
use chain_route.Worker.Publisher.{Publisher, poll_once}
use chain_route.Worker.Service.{
  processor_of, handle_routed_payment-Evolves, reconciler-Evolves, recovery-Evolves,
  create_or_get_payment-Evolves,
}
use chain_route.Worker.Sends.{Resends, drive_execution_forward-Resends}
use chain_route.Worker.Fresh.{SendsPersisted, sign_and_broadcast_fresh-SendsPersisted}
use chain_route.Worker.Checked.{Quiet, SpendsNothing, Valid, validate_envelope-Valid}
use chain_route.Worker.Cleared.{Cleared, execute_testnet_payment-Cleared}
use chain_route.Worker.Slippage.{exceeds_baseline_lem}
use chain_route.Worker.Publishing.{message_of, poll_once-acked}
use chain_route.Worker.Delivery.{handle_routed_payment-passed}
use chain_route.Store.Outbox.{next_event}

-- A time is a 'T' and one byte, in this environment.
abbrev first_byte : List ℕ → Option Time
first_byte [] = none
first_byte (c ∷ cs) = some (c - b'0')

abbrev same_bytes : List ℕ → List ℕ → Bool
same_bytes [] [] = true
same_bytes (x ∷ xs) (y ∷ ys) = if eqb x y then same_bytes xs ys else false
same_bytes _ _ = false

-- The ids that this environment knows.
abbrev read_known : List ℕ → List String → Option String
read_known s [] = none
read_known s (id ∷ ids) = if same_bytes s (codes id) then some id else read_known s ids

abbrev calm_env : Env
calm_env = record {
  fault = λ n. fine;
  clock = λ n. n + 100;
  others = λ n d. d;
  new_id = λ n. "new-id";
  new_event_id = λ n. "new-event";
  clock_within = λ n. n + 100;
  locked = λ n id. false;
  numeric_text = λ s. some s;
  numeric_0 = λ s. some s;
  jsonb = λ s. some s;
  numeric_eq = λ a b. true;
  time_text = λ t. b'T' ∷ (t + b'0') ∷ [];
  read_time = λ s. elim s [ [] ↦ none | (c ∷ cs) ↦ first_byte cs ];
  read_id = λ s. read_known s ("pay-1" ∷ "pay-2" ∷ "pay-3" ∷ []);
  average = λ xs. 0;
  date_trunc = λ unit t. t / 100 * 100;
  of_count = λ n. n;
  marshal_event = λ e. e.payment_id;
  unmarshal_event = λ s. none;
}

calm-Quiet : Quiet calm_env
calm-Quiet = record { still = λ n d. refl }

calm-Fair : Fair calm_env
calm-Fair = record { others_evolve = λ n d. Evolves-refl d }

abbrev routed_row : PaymentRow
routed_row = record {
  id = "pay-1";
  idempotency_key = "key-1";
  source_chain = "ethereum-sepolia";
  destination_chain = "base-sepolia";
  asset = "WETH";
  amount = b'1' ∷ [];
  status = routed;
  total_fee = 0;
  execution_mode = simulated;
  bridge_provider = none;
  failure_reason = none;
  completed_at = none;
  created_at = 5;
  updated_at = 5;
}

abbrev nonce_row : NonceRow
nonce_row = record { wallet_address = "wallet"; next_nonce = 7 }

abbrev routed_db : Db
routed_db = record empty_db { payments = routed_row ∷ []; wallet_nonces = nonce_row ∷ [] }

abbrev processing_db : Db
processing_db = record routed_db {
  payments =
      record routed_row { status = processing }
      ∷ record routed_row { id = "pay-2"; status = processing }
      ∷ [];
}

abbrev world_of : Db → World
world_of d = record { db = d; tick = 0; sent = []; produced = []; metrics = [] }

abbrev sent_tx : Transaction
sent_tx = record {
  legacy = record {
    nonce = 7;
    to = "spoke-pool";
    value = some (pos 1000);
    gas = 21000;
    gas_price = 10;
    input = [];
  };
  chain_id = 11155111;
  signature = [];
}

abbrev codec : Codec
codec = record {
  sign_tx = λ tx c. some (record { legacy = tx; chain_id = c; signature = [] });
  marshal_binary = λ tx. some (tx.legacy.nonce ∷ []);
  unmarshal_binary = λ raw. some sent_tx;
  tx_hash = λ tx. "hash";
  hex_to_hash = λ s. s;
  decode_request_id = λ s. none;
}

abbrev client : EthClient
client = record {
  suggest_gas_price = λ n. some 10;
  estimate_gas = λ n v. some 21000;
  transaction_by_hash = λ n h. not_found;
  send_transaction = λ n tx. true;
  receipt_status = λ n h. none;
  pending_nonce_at = λ n w. some 7;
}

abbrev live_quote : LiveQuote
live_quote = record {
  provider_name = "across";
  source_chain_id = 11155111;
  destination_chain_id = 84532;
  asset = "WETH";
  input_amount_base_units = some (pos 1000);
  output_amount_base_units = pos 990;
  fee_base_units = pos 10;
  estimated_fill_time_sec = 60;
  available = true;
  quoted_at = 90;
  expires_at = 500;
  raw_provider_payload = "";
}

abbrev envelope : TxEnvelope
envelope = record { to = "spoke-pool"; value = some (pos 1000); input = []; chain_id = 11155111 }

abbrev provider : Provider
provider = record { name = "across"; get_quote = λ n r. some live_quote }

abbrev executor : Executor
executor = record {
  wallet_address = "wallet";
  codec = codec;
  origin_client = client;
  quote_providers = λ p. some provider;
  signers = λ p. some (record { build_transaction = λ n q. some envelope });
  expected_contract_by_provider = λ p. some "spoke-pool";
  max_fee_slippage_bps = pos 50;
  origin_chain_id = 11155111;
  dest_chain_id = 84532;
  max_amount_wei = some (pos 5000000000000000000);
}

abbrev reconciler : Reconciler
reconciler = record {
  executor = executor;
  origin_client = client;
  status_checkers = λ p. none;
  wallet_address = "wallet";
  staleness = 30;
  map_order = λ n es. es;
}

abbrev quote_row : Quote
quote_row = record {
  payment_id = "pay-1";
  provider = "across";
  origin_chain_id = 11155111;
  destination_chain_id = 84532;
  asset = "WETH";
  input_amount = b'1' ∷ [];
  output_amount = b'1' ∷ [];
  fee_amount = b'1' ∷ b'0' ∷ [];
  estimated_fill_time_sec = 60;
  quoted_at = 1;
  expires_at = 1000;
  raw_provider_payload = "";
  selected = true;
  created_at = 1;
}

abbrev signed_row : Execution
signed_row = record {
  id = "exec-1";
  payment_id = "pay-1";
  bridge_provider = "across";
  origin_chain_id = 11155111;
  destination_chain_id = 84532;
  wallet_address = "wallet";
  nonce = 7;
  signed_tx_hash = some "hash";
  raw_signed_tx = some (7 ∷ []);
  broadcast_at = none;
  provider_reference_id = none;
  external_status = ExternalStatus.pending;
  raw_external_status = none;
  confirmed_at = none;
  created_at = 1;
  updated_at = 1;
}

abbrev request : Payment
request = record {
  id = "";
  idempotency_key = "key-9";
  source_chain = "ethereum-sepolia";
  destination_chain = "base-sepolia";
  asset = "WETH";
  amount = b'2' ∷ [];
  status = routed;
  total_fee = 0;
  hops = [];
  execution_mode = simulated;
  bridge_provider = none;
  failure_reason = none;
  quotes = [];
  created_at = 0;
  updated_at = 0;
  completed_at = none;
}

abbrev event : RoutedPayment
event = record { payment_id = "pay-1"; event_type = "PAYMENT_ROUTED"; occurred_at = 5 }

abbrev publisher : Publisher
publisher = record { publish = λ n m. true }

abbrev params : String → CreateExecutionParams
params id = record {
  payment_id = id;
  wallet_address = "wallet";
  bridge_provider = "across";
  origin_chain_id = 11155111;
  destination_chain_id = 84532;
}

-- A testnet payment that is claimed, with its quote: everything is there to execute it.
abbrev testnet_row : PaymentRow
testnet_row = record routed_row { status = processing; execution_mode = testnet }

abbrev ready_db : Db
ready_db = record routed_db { payments = testnet_row ∷ []; quotes = quote_row ∷ [] }

-- The same payment once it is SUBMITTED.
abbrev submitted_row : PaymentRow
submitted_row = record testnet_row { status = submitted }

abbrev submitted_db : Db
submitted_db = record ready_db { payments = submitted_row ∷ []; executions = signed_row ∷ [] }

abbrev outbox_row : OutboxRow
outbox_row = record {
  id = "event-1";
  payment_id = "pay-1";
  event_type = "PAYMENT_ROUTED";
  payload = "{}";
  created_at = 5;
  published_at = none;
}

abbrev outbox_db : Db
outbox_db = record routed_db { outbox = outbox_row ∷ [] }

abbrev filled_result : StatusResult
filled_result = record { state = filled; raw_status = "filled"; destination_tx_hash = none }

abbrev higher_row : Execution
higher_row = record signed_row {
  id = "exec-2";
  payment_id = "pay-2";
  nonce = 8;
  broadcast_at = some 9;
}

abbrev broadcast_row : Execution
broadcast_row = record signed_row { broadcast_at = some 8 }

-- A row whose nonce is allocated and that is not signed yet.
abbrev unsigned_row : Execution
unsigned_row = record signed_row { signed_tx_hash = none; raw_signed_tx = none }

abbrev signing_db : Db
signing_db = record ready_db { executions = unsigned_row ∷ [] }
