-- ===== src/Tests/Runs.antt =====
-- Runs of the definitions at concrete inputs.
use chain_route.Prelude.{[], ◌∷◌, ◌≡◌, refl}
use chain_route.Prelude.Int.{pos}
use chain_route.Execution.{fnv_1a, codes, offset64}
use chain_route.Prelude.{some, none}
use chain_route.Store.Payments.{
  get_payment, get_payment_stmt, hops_stmt, hops_for_payment, payment_row, to_payment, transition,
  submit_stmt, mark_submitted,
}
use chain_route.Store.Executions.{
  try_create_execution, try_create_stmt, insert_execution, persist_signed_execution, persist_stmt,
  mark_execution_broadcast, broadcast_stmt, update_execution,
}
use chain_route.Store.Quotes.{get_quote_by_payment_id, get_quote_stmt, selected_quote}
use chain_route.Db.Table.{find, modify, update_if}
use chain_route.Money.{decimal_to_base_units, split_dot, set_string, set_digits, digits_value}
use chain_route.World.{monad}
use chain_route.Worker.Clients.{sanitize_provider_label}
use chain_route.Worker.Executor.Checks.{
  exceeds_slippage_tolerance, exceeds_baseline, exceeds_guardrail, validate_envelope,
  build_validated_envelope, extract_provider_reference_id,
}
use chain_route.Worker.Executor.Broadcast.{
  sign_and_broadcast_fresh, broadcast_with_recovery, send_persisted, send_transaction,
  record_broadcast,
}
use chain_route.Worker.Executor.{
  execute_testnet_payment, fresh_terms, check_and_start, start_execution, sign_and_account,
}
use chain_route.Tests.{executor, calm_env, world_of, ready_db, sent_tx}

-- A payment that is ready is executed: its transaction is sent, and it is SUBMITTED.
executes :
    (execute_testnet_payment executor "pay-1" calm_env (world_of ready_db)).1.sent ≡ sent_tx ∷ []
unfolding execute_testnet_payment fresh_terms check_and_start start_execution sign_and_account
    sign_and_broadcast_fresh broadcast_with_recovery send_persisted send_transaction
    record_broadcast exceeds_slippage_tolerance exceeds_baseline exceeds_guardrail validate_envelope
    build_validated_envelope extract_provider_reference_id sanitize_provider_label get_payment
    get_payment_stmt hops_stmt hops_for_payment payment_row to_payment transition submit_stmt
    mark_submitted try_create_execution try_create_stmt insert_execution persist_signed_execution
    persist_stmt mark_execution_broadcast broadcast_stmt update_execution get_quote_by_payment_id
    get_quote_stmt selected_quote find modify update_if decimal_to_base_units split_dot set_string
    set_digits digits_value monad
executes = refl

-- 1.5 with six decimals, and with none.
reads_decimal : decimal_to_base_units (b'1' ∷ b'.' ∷ b'5' ∷ []) 6 ≡ some (pos 1500000)
unfolding decimal_to_base_units split_dot set_string set_digits digits_value
reads_decimal = refl

refuses_decimal : decimal_to_base_units (b'1' ∷ b'.' ∷ b'5' ∷ []) 0 ≡ none
unfolding decimal_to_base_units split_dot
refuses_decimal = refl

-- The published value of FNV-1a for "a".
hashes_a : fnv_1a offset64 (codes "a") ≡ 12638187200555641996
unfolding fnv_1a
hashes_a = refl
