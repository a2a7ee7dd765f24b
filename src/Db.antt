-- ===== src/Db.antt =====
-- The PostgreSQL schema of go-api/migrations, after migration 0008: a record of tables, each a
-- list of rows in the order of insertion. Values that only Postgres interprets are parameters of
-- the statements (`World`).
pub mod Table
use chain_route.Prelude.{ℕ, String, Option, List, []}
use chain_route.Payment.{Status, ExecutionMode, Time, Float64, Quote, Hop, Execution}

-- A row of `payments`. `amount` is the text of the NUMERIC(38, 18) that is stored.
pub record PaymentRow : Type 0 where
  pub id : String
  pub idempotency_key : String
  pub source_chain : String
  pub destination_chain : String
  pub asset : String
  pub amount : List ℕ
  pub status : Status
  pub total_fee : Float64
  pub execution_mode : ExecutionMode
  pub bridge_provider : Option String
  pub failure_reason : Option String
  pub completed_at : Option Time
  pub created_at : Time
  pub updated_at : Time

-- A row of `payment_route_hops`.
pub record HopRow : Type 0 where
  pub payment_id : String
  pub hop : Hop

-- A row of `outbox_events`; `payload` is the JSON text.
pub record OutboxRow : Type 0 where
  pub id : String
  pub payment_id : String
  pub event_type : String
  pub payload : String
  pub created_at : Time
  pub published_at : Option Time

-- A row of `wallet_nonces`.
pub record NonceRow : Type 0 where
  pub wallet_address : String
  pub next_nonce : ℕ

pub record Db : Type 0 where
  pub payments : List PaymentRow
  pub hops : List HopRow
  pub quotes : List Quote
  pub outbox : List OutboxRow
  pub executions : List Execution
  pub wallet_nonces : List NonceRow

abbrev pub empty_db : Db
empty_db = record {
  payments = [];
  hops = [];
  quotes = [];
  outbox = [];
  executions = [];
  wallet_nonces = [];
}
