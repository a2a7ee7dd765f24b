-- ===== src/Worker/Executor.antt =====
-- executor.go: from a claimed PROCESSING payment to a broadcast, SUBMITTED transaction. The checks
-- and the signed part are child modules.
pub mod Checks
pub mod Broadcast
use chain_route.Prelude.{
  ℕ, String, Bool, true, false, Option, none, some, ltb, if◌then◌else◌, not, is_some,
}
use chain_route.Prelude.Int.{ℤ}
use chain_route.Payment.{Execution, Quote, Payment}
use chain_route.Money.{decimal_to_base_units}
use chain_route.Bridge.Quote.{Quote as LiveQuote, Request}
use chain_route.World.{
  M, ok, err, pure, fail, attempt, on_error, or_fail, external, now, emit, ◌>>=◌, ◌>>◌,
  executions_failed, execution_attempts, execution_duration, broadcasts, quote_row_missing,
  provider_not_configured, payment_not_found, amount_invalid, fresh_quote_failed,
}
use chain_route.Store.Payments.{get_payment, mark_processing_failed}
use chain_route.Store.Executions.{CreateExecutionParams, try_create_execution}
use chain_route.Store.Quotes.{get_quote_by_payment_id}
use chain_route.Worker.Clients.{sanitize_provider_label}
use Checks.{Executor, exceeds_slippage_tolerance, exceeds_guardrail, build_validated_envelope}
use Broadcast.{broadcast_with_recovery, record_broadcast, sign_and_broadcast_fresh}

-- const wethDecimals.
abbrev pub weth_decimals : ℕ
weth_decimals = 18

-- A check that fails routinely: count it, and fail the payment with its reason.
unfoldable pub reject : String → String → String → String → M (Unit {0})
reject label failure_class payment_id reason = do
  emit (executions_failed label failure_class)
  mark_processing_failed payment_id reason
  pure tt

abbrev pub request_for : Quote → ℤ → Request
request_for q amount = record {
  source_chain_id = q.origin_chain_id;
  destination_chain_id = q.destination_chain_id;
  asset = q.asset;
  amount_base_units = amount;
}

-- The provider, the payment's amount in base units and a fresh quote, all before any nonce.
unfoldable pub fresh_terms : Executor → String → Quote → M (ℤ × LiveQuote)
fresh_terms e payment_id quote_row = do
  provider ← or_fail (e.quote_providers quote_row.provider) provider_not_configured
  found ← get_payment payment_id
  p ← or_fail found payment_not_found
  input_amount ← or_fail (decimal_to_base_units p.amount weth_decimals) amount_invalid
  answered ← external (λ n. provider.get_quote n (request_for quote_row input_amount))
  fresh_quote ← or_fail answered fresh_quote_failed
  pure (input_amount, fresh_quote)

-- Sign and broadcast, and record how it went.
unfoldable pub sign_and_account : String → M (Unit {0}) → M (Unit {0})
sign_and_account label broadcast = do
  outcome ← attempt broadcast
  emit (execution_duration label)
  elim outcome [
    | ok _ ↦ pure tt
    | err x ↦ emit (executions_failed label "broadcast_error") >> fail x
  ]

abbrev pub params_for : Executor → String → Quote → CreateExecutionParams
params_for e payment_id quote_row = record {
  payment_id = payment_id;
  wallet_address = e.wallet_address;
  bridge_provider = quote_row.provider;
  origin_chain_id = e.origin_chain_id;
  destination_chain_id = e.dest_chain_id;
}

-- Every check has passed: allocate the nonce with the execution row, and go on if this call won.
unfoldable pub start_execution : Executor → String → Quote → LiveQuote → String → M (Unit {0})
unfolding sign_and_account
start_execution e payment_id quote_row fresh_quote label = do
  envelope ←
      on_error (build_validated_envelope e quote_row fresh_quote)
        (emit (executions_failed label "envelope_invalid"))
  created ← try_create_execution (params_for e payment_id quote_row)
  elim created [
    | none ↦ pure tt
    | some exec ↦
        emit (execution_attempts label)
        >> sign_and_account label (sign_and_broadcast_fresh e exec envelope fresh_quote label)
  ]

-- The checks on a fresh quote, in the order of the code.
unfoldable pub check_and_start : Executor → String → Quote → ℤ → LiveQuote → String → M (Unit {0})
check_and_start e payment_id quote_row input_amount fresh_quote label =
    if not fresh_quote.available
    then reject label "route_unavailable" payment_id "route_unavailable"
    else if exceeds_slippage_tolerance quote_row.fee_amount fresh_quote.fee_base_units
        e.max_fee_slippage_bps
    then reject label "slippage_exceeded" payment_id "fee_slippage_exceeded"
    else if exceeds_guardrail e.max_amount_wei input_amount
    then reject label "amount_exceeds_guardrail" payment_id "amount_exceeds_guardrail"
    else start_execution e payment_id quote_row fresh_quote label

unfoldable pub execute_testnet_payment : Executor → String → M (Unit {0})
execute_testnet_payment e payment_id = do
  found ← get_quote_by_payment_id payment_id
  quote_row ← or_fail found quote_row_missing
  let label = sanitize_provider_label quote_row.provider
  t ← now
  if ltb quote_row.expires_at t
      then reject label "quote_expired" payment_id "routing_quote_expired"
      else (fresh_terms e payment_id quote_row >>= λ terms.
          check_and_start e payment_id quote_row terms.0 terms.1 label)

-- The resumed row is signed: broadcast recovery with the persisted bytes, and nothing else.
unfoldable pub drive_signed : Executor → Execution → String → M (Unit {0})
unfolding record_broadcast
drive_signed e exec label = do
  sent ←
      on_error (broadcast_with_recovery e exec.signed_tx_hash exec.raw_signed_tx)
        (emit (executions_failed label "broadcast_error"))
  if sent then emit (broadcasts label) >> emit (execution_duration label) else pure tt
  record_broadcast exec

-- The checks of a resumed row that is not signed. A refused quote leaves the nonce allocated and the
-- payment PROCESSING.
unfoldable pub check_and_resume :
    Executor → Execution → Quote → ℤ → LiveQuote → String → M (Unit {0})
unfolding sign_and_account
check_and_resume e exec quote_row input_amount fresh_quote label =
    if (if fresh_quote.available
      then exceeds_slippage_tolerance quote_row.fee_amount fresh_quote.fee_base_units
          e.max_fee_slippage_bps
      else true)
    then emit (executions_failed label "slippage_exceeded")
    else if exceeds_guardrail e.max_amount_wei input_amount
    then reject label "amount_exceeds_guardrail" exec.payment_id "amount_exceeds_guardrail"
    else (on_error (build_validated_envelope e quote_row fresh_quote)
          (emit (executions_failed label "envelope_invalid"))
        >>= λ envelope.
            sign_and_account label (sign_and_broadcast_fresh e exec envelope fresh_quote label))

unfoldable pub drive_unsigned : Executor → Execution → String → M (Unit {0})
drive_unsigned e exec label = do
  found ← get_quote_by_payment_id exec.payment_id
  quote_row ← or_fail found quote_row_missing
  t ← now
  if ltb quote_row.expires_at t
      then reject label "quote_expired" exec.payment_id "routing_quote_expired"
      else (fresh_terms e exec.payment_id quote_row >>= λ terms.
          check_and_resume e exec quote_row terms.0 terms.1 label)

unfoldable pub drive_execution_forward : Executor → Execution → M (Unit {0})
drive_execution_forward e exec =
    let label = sanitize_provider_label exec.bridge_provider in
    if is_some exec.signed_tx_hash then drive_signed e exec label else drive_unsigned e exec label
