-- ===== src/Handler/Response.antt =====
-- handler/payments.go, routes.go: what a handler writes. A JSON body is the value that is encoded,
-- with the field names of its struct.
use chain_route.Prelude.{ℕ, String, Bool, Option, none, some, List}
use mathlib.Core.Option
use chain_route.Payment.{
  Payment, Hop, Execution, Float64, CreateResult, DashboardStats, created, replayed, conflict,
  status_text, mode_text, external_text,
}
use chain_route.Handler.Routing.{Runtime}

-- paymentResponse. Its hops are hopResponses, which have the fields of a Hop.
pub record PaymentResponse : Type 0 where
  pub id : String
  pub source_chain : String
  pub destination_chain : String
  pub asset : String
  pub amount : List ℕ
  pub status : String
  pub total_fee : Float64
  pub hops : List Hop
  pub execution_mode : String
  pub bridge_provider : Option String
  pub failure_reason : Option String
  pub external_tx_hash : Option String
  pub submitted_at : Option String
  pub created_at : String
  pub updated_at : String
  pub completed_at : Option String
  pub provider_reference_id : Option String
  pub external_status : Option String
  pub raw_external_status : Option String

pub record RouteHopResponse : Type 0 where
  pub from_chain : String
  pub to_chain : String
  pub bridge_name : String
  pub fee : Float64
  pub latency_ms : Float64
  pub liquidity : Float64
  pub reliability : Float64

-- paymentListItem.
pub record PaymentListItem : Type 0 where
  pub id : String
  pub source_chain : String
  pub destination_chain : String
  pub asset : String
  pub amount : List ℕ
  pub status : String
  pub execution_mode : String
  pub bridge_provider : Option String
  pub total_fee : Float64
  pub created_at : String

-- quoteItem.
pub record QuoteItem : Type 0 where
  pub provider : String
  pub input_amount : List ℕ
  pub output_amount : List ℕ
  pub fee_amount : List ℕ
  pub estimated_fill_time_sec : ℕ
  pub selected : Bool
  pub quoted_at : String

-- timeseriesPoint.
pub record TimeseriesItem : Type 0 where
  pub bucket : String
  pub value : Float64
  pub count : ℕ

-- The dashboard's body has the fields of DashboardStats, and its map and its list are never null.
pub data Body : Type 0 where
  nothing_written : Body
  error_body : String → Body
  payment_body : PaymentResponse → Body
  route_body : Bool → List RouteHopResponse → Float64 → Body
  list_body : List PaymentListItem → Option (List ℕ) → Body
  quotes_body : List QuoteItem → Body
  stats_body : DashboardStats → Body
  timeseries_body : String → List TimeseriesItem → Body

pub record Response : Type 0 where
  pub status : ℕ
  pub location : Option String
  pub body : Body

abbrev pub write_json : ℕ → Body → Response
write_json status body = record { status = status; location = none; body = body }

abbrev pub write_error : ℕ → String → Response
write_error status message = write_json status (error_body message)

abbrev pub internal_error : Response
internal_error = write_error 500 "internal error"

-- The same with a Location header that names the payment.
abbrev pub write_located : ℕ → String → Body → Response
write_located status id body = record {
  status = status;
  location = some (Prim.Native.String.◌++◌ "/payments/" id);
  body = body;
}

-- `exec` is none where execFound is false.
unfoldable pub to_payment_response : Runtime → Payment → Option Execution → PaymentResponse
to_payment_response rt p exec = record {
  id = p.id;
  source_chain = p.source_chain;
  destination_chain = p.destination_chain;
  asset = p.asset;
  amount = p.amount;
  status = status_text p.status;
  total_fee = p.total_fee;
  hops = p.hops;
  execution_mode = mode_text p.execution_mode;
  bridge_provider = p.bridge_provider;
  failure_reason = p.failure_reason;
  external_tx_hash = elim exec [ none ↦ none | some e ↦ e.signed_tx_hash ];
  submitted_at = elim exec [ none ↦ none | some e ↦ Option.map rt.format_time e.broadcast_at ];
  created_at = rt.format_time p.created_at;
  updated_at = rt.format_time p.updated_at;
  completed_at = Option.map rt.format_time p.completed_at;
  provider_reference_id = elim exec [ none ↦ none | some e ↦ e.provider_reference_id ];
  external_status = elim exec [ none ↦ none | some e ↦ some (external_text e.external_status) ];
  raw_external_status = elim exec [ none ↦ none | some e ↦ e.raw_external_status ];
}

abbrev pub conflict_message : String
conflict_message = "Idempotency-Key already used with a different request"

abbrev pub write_replayed : Runtime → Payment → Response
write_replayed rt p = write_located 200 p.id (payment_body (to_payment_response rt p none))

abbrev pub write_created : Runtime → Payment → Response
write_created rt p = write_located 201 p.id (payment_body (to_payment_response rt p none))

-- The switch over what LookupByIdempotencyKey found: it has no case for a created payment, and a
-- handler that writes nothing answers 200.
unfoldable pub write_existing : Runtime → CreateResult → Response
write_existing rt (replayed p) = write_replayed rt p
write_existing rt conflict = write_error 409 conflict_message
write_existing rt (created p) = write_json 200 nothing_written

-- The switch over what CreateOrGetPayment did.
unfoldable pub write_outcome : Runtime → CreateResult → Response
write_outcome rt (created p) = write_created rt p
write_outcome rt (replayed p) = write_replayed rt p
write_outcome rt conflict = write_error 409 conflict_message
