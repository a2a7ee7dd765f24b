-- ===== src/Payment.antt =====
-- go-api/internal/payment/payment.go: the domain types. Strings that the program only compares and
-- carries are `String`; a float64 that it only carries is its bit pattern, and a time.Time or a
-- time.Duration is a number of nanoseconds, each a number.
pub mod Cursor
use chain_route.Prelude.{ℕ, String, Bool, true, false, Option, List}

pub data Status : Type 0 where
  routed processing submitted completed failed : Status

pub data ExecutionMode : Type 0 where
  simulated testnet : ExecutionMode

pub data ExternalStatus : Type 0 where
  pending filled expired refunded reverted fill_failed : ExternalStatus

abbrev pub Time : Type 0
Time = ℕ

abbrev pub Float64 : Type 0
Float64 = ℕ

-- The amounts are base-units integer decimal strings, as bytes.
pub record Quote : Type 0 where
  pub payment_id : String
  pub provider : String
  pub origin_chain_id : ℕ
  pub destination_chain_id : ℕ
  pub asset : String
  pub input_amount : List ℕ
  pub output_amount : List ℕ
  pub fee_amount : List ℕ
  pub estimated_fill_time_sec : ℕ
  pub quoted_at : Time
  pub expires_at : Time
  pub raw_provider_payload : String
  pub selected : Bool
  pub created_at : Time

pub record Hop : Type 0 where
  pub hop_index : ℕ
  pub from_chain : String
  pub to_chain : String
  pub bridge_name : String
  pub fee : Float64
  pub latency_ms : Float64
  pub liquidity : Float64
  pub reliability : Float64

-- `amount` is the decimal string, as bytes.
pub record Payment : Type 0 where
  pub id : String
  pub idempotency_key : String
  pub source_chain : String
  pub destination_chain : String
  pub asset : String
  pub amount : List ℕ
  pub status : Status
  pub total_fee : Float64
  pub hops : List Hop
  pub execution_mode : ExecutionMode
  pub bridge_provider : Option String
  pub failure_reason : Option String
  pub quotes : List Quote
  pub created_at : Time
  pub updated_at : Time
  pub completed_at : Option Time

pub record Execution : Type 0 where
  pub id : String
  pub payment_id : String
  pub bridge_provider : String
  pub origin_chain_id : ℕ
  pub destination_chain_id : ℕ
  pub wallet_address : String
  pub nonce : ℕ
  pub signed_tx_hash : Option String
  pub raw_signed_tx : Option (List ℕ)
  pub broadcast_at : Option Time
  pub provider_reference_id : Option String
  pub external_status : ExternalStatus
  pub raw_external_status : Option String
  pub confirmed_at : Option Time
  pub created_at : Time
  pub updated_at : Time

-- The cursor is its bytes, and a limit below zero, which no caller gives, is left out.
pub record ListFilter : Type 0 where
  pub limit : ℕ
  pub cursor : List ℕ
  pub status : Option String
  pub provider : Option String
  pub source_chain : Option String
  pub destination_chain : Option String
  pub execution_mode : Option String

-- A ProviderUsage map is a list of its entries.
pub record NetworkUsageEntry : Type 0 where
  pub source_chain : String
  pub destination_chain : String
  pub count : ℕ

pub record DashboardStats : Type 0 where
  pub total_payments : ℕ
  pub completed_payments : ℕ
  pub processing_payments : ℕ
  pub failed_payments : ℕ
  pub provider_usage : List (String × ℕ)
  pub average_routing_cost : Float64
  pub network_usage : List NetworkUsageEntry

pub record TimeseriesPoint : Type 0 where
  pub bucket : Time
  pub value : Float64
  pub count : ℕ

-- CreateResult with the payment that goes with it: on a conflict the code returns the zero payment,
-- which no caller reads.
pub data CreateResult : Type 0 where
  created replayed : Payment → CreateResult
  conflict : CreateResult

-- events.RoutedPayment; the trace carrier is left out, with all tracing.
pub record RoutedPayment : Type 0 where
  pub payment_id : String
  pub event_type : String
  pub occurred_at : Time

-- events.RoutedPaymentEventType.
abbrev pub routed_payment_event_type : String
routed_payment_event_type = "PAYMENT_ROUTED"

-- The constants' texts, which are their values in the code.
abbrev pub status_text : Status → String
status_text Status.routed = "ROUTED"
status_text Status.processing = "PROCESSING"
status_text Status.submitted = "SUBMITTED"
status_text Status.completed = "COMPLETED"
status_text Status.failed = "FAILED"

abbrev pub mode_text : ExecutionMode → String
mode_text ExecutionMode.simulated = "simulated"
mode_text ExecutionMode.testnet = "testnet"

abbrev pub external_text : ExternalStatus → String
external_text ExternalStatus.pending = "pending"
external_text ExternalStatus.filled = "filled"
external_text ExternalStatus.expired = "expired"
external_text ExternalStatus.refunded = "refunded"
external_text ExternalStatus.reverted = "reverted"
external_text ExternalStatus.fill_failed = "fill_failed"

-- Equality of the constants.
abbrev pub status_eq : Status → Status → Bool
status_eq Status.routed Status.routed = true
status_eq Status.processing Status.processing = true
status_eq Status.submitted Status.submitted = true
status_eq Status.completed Status.completed = true
status_eq Status.failed Status.failed = true
status_eq _ _ = false

abbrev pub mode_eq : ExecutionMode → ExecutionMode → Bool
mode_eq ExecutionMode.simulated ExecutionMode.simulated = true
mode_eq ExecutionMode.testnet ExecutionMode.testnet = true
mode_eq _ _ = false
