-- ===== src/Tests/Witnesses.antt =====
-- The theorems on the worker, at concrete inputs.
use chain_route.Prelude.{◌+◌, true, none, some, [], ◌∷◌, ◌≡◌, refl, ◌⊎◌, ltb, ◌*◌, arith}
use chain_route.Prelude.Int.{pos}
use chain_route.Payment.{processing, completed}
use chain_route.Db.{OutboxRow}
use chain_route.Db.Table.{find}
use chain_route.World.{monad}
use chain_route.Store.Payments.{payment_row}
use chain_route.Store.Create.{create_or_get_payment}
use chain_route.Store.Evolution.{Evolves}
use chain_route.Worker.Executor.Checks.{exceeds_baseline, validate_envelope}
use chain_route.Worker.Executor.Broadcast.{sign_and_broadcast_fresh}
use chain_route.Worker.Executor.{execute_testnet_payment, drive_execution_forward}
use chain_route.Worker.Processor.{handle_routed_payment}
use chain_route.Worker.Recovery as Recovery
use chain_route.Worker.Reconciler.{Reconciler}
use chain_route.Worker.Reconciler as Reconciler
use chain_route.Worker.Publisher.{poll_once}
use chain_route.Worker.Service.{
  processor_of, handle_routed_payment-Evolves, reconciler-Evolves, recovery-Evolves,
  create_or_get_payment-Evolves,
}
use chain_route.Worker.Sends.{Resends, drive_execution_forward-Resends}
use chain_route.Worker.Fresh.{SendsPersisted, sign_and_broadcast_fresh-SendsPersisted}
use chain_route.Worker.Checked.{SpendsNothing, Valid, validate_envelope-Valid}
use chain_route.Worker.Cleared.{Cleared, execute_testnet_payment-Cleared}
use chain_route.Worker.Slippage.{exceeds_baseline_lem}
use chain_route.Worker.Publishing.{message_of, poll_once-acked}
use chain_route.Worker.Delivery.{handle_routed_payment-passed}
use chain_route.Store.Outbox.{next_event}
use chain_route.Worker.Lowest.{nonce_of, execution_wallet, is_broadcast_by, nonce-lowest}
use chain_route.Worker.Outcome.{mark_terminal-passed}
use chain_route.Worker.Submission.{Answers}
use chain_route.Worker.Reconciler.{lowest_by_wallet, mark_terminal}
use chain_route.Store.Executions.{min_nonce}
use chain_route.Prelude.{select}
use chain_route.Payment.{completed}
use mathlib.Core.Option
use chain_route.Worker.Waiting.{check_and_update_outcome-Unsettled}
use chain_route.Worker.Reconciler.{check_and_update_outcome}
use chain_route.Store.Payments.{mark_submitted}
use chain_route.Prelude.{inl}
use chain_route.Tests.{
  ready_db, testnet_row, submitted_db, outbox_db, signing_db, filled_result, higher_row,
  broadcast_row, sent_tx, calm_env, calm-Quiet, calm-Fair, routed_row, routed_db, processing_db,
  world_of, live_quote, envelope, executor, reconciler, quote_row, signed_row, request, event,
  publisher,
}

execute_testnet_payment-Cleared_example :
    SpendsNothing
      (world_of ready_db)
      (execute_testnet_payment executor "pay-1" calm_env (world_of ready_db)).1
    ⊎ Cleared executor "pay-1" (world_of ready_db) calm_env
execute_testnet_payment-Cleared_example =
    execute_testnet_payment-Cleared executor "pay-1" calm_env (world_of ready_db) calm-Quiet

sign_and_broadcast_fresh-SendsPersisted_example :
    SendsPersisted executor signed_row envelope live_quote "across" calm_env
      (world_of signing_db)
      (sign_and_broadcast_fresh executor signed_row envelope live_quote "across" calm_env
        (world_of signing_db)).1
sign_and_broadcast_fresh-SendsPersisted_example =
    sign_and_broadcast_fresh-SendsPersisted executor signed_row envelope live_quote "across"
      calm_env (world_of signing_db)

drive_execution_forward-Resends_example :
    Resends executor "hash"
      (7 ∷ [])
      (world_of routed_db)
      (drive_execution_forward executor signed_row calm_env (world_of routed_db)).1
drive_execution_forward-Resends_example =
    drive_execution_forward-Resends executor signed_row "hash" (7 ∷ []) refl refl calm_env
      (world_of routed_db)

reconciler-Evolves_example :
    Evolves submitted_db (Reconciler.sweep_once reconciler calm_env (world_of submitted_db)).1.db
reconciler-Evolves_example =
    reconciler-Evolves reconciler calm_env (world_of submitted_db) calm-Fair

handle_routed_payment-Evolves_example :
    Evolves routed_db
      (handle_routed_payment
        (processor_of (some executor))
        event
        calm_env
        (world_of routed_db)).1.db
handle_routed_payment-Evolves_example =
    handle_routed_payment-Evolves (some executor) event calm_env (world_of routed_db) calm-Fair

recovery-Evolves_example :
    Evolves processing_db (Recovery.sweep_once 30 calm_env (world_of processing_db)).1.db
recovery-Evolves_example = recovery-Evolves 30 calm_env (world_of processing_db) calm-Fair

create_or_get_payment-Evolves_example :
    Evolves routed_db (create_or_get_payment request calm_env (world_of routed_db)).1.db
create_or_get_payment-Evolves_example =
    create_or_get_payment-Evolves request calm_env (world_of routed_db) calm-Fair

handle_routed_payment-passed_example :
    (handle_routed_payment (processor_of none) event calm_env (world_of processing_db)).1.db
    ≡ processing_db
unfolding payment_row find
handle_routed_payment-passed_example =
    handle_routed_payment-passed (processor_of none) event calm_env (world_of processing_db)
      (record routed_row { status = processing }) calm-Quiet refl refl

poll_once-acked_example :
    ((poll_once publisher calm_env (world_of outbox_db)).1.db ≡ outbox_db)
    ⊎ ((evt : OutboxRow) × (next_event (calm_env.locked 0) outbox_db ≡ some evt)
        × (publisher.publish 1 (message_of evt) ≡ true)
        × ((poll_once publisher calm_env (world_of outbox_db)).1.produced ≡ message_of evt ∷ []))
poll_once-acked_example = poll_once-acked publisher calm_env (world_of outbox_db) calm-Quiet

validate_envelope-Valid_example : Valid executor envelope quote_row live_quote
unfolding validate_envelope monad
validate_envelope-Valid_example =
    validate_envelope-Valid executor envelope quote_row live_quote calm_env (world_of routed_db)
      refl

exceeds_baseline_lem_example :
    exceeds_baseline (pos 1000) (pos 1006) (pos 50) ≡ ltb (1000 * (10000 + 50)) (1006 * 10000)
exceeds_baseline_lem_example = exceeds_baseline_lem 1000 1006 50 (omega arith)

nonce-lowest_example :
    Option.map nonce_of
      (find execution_wallet "wallet" (lowest_by_wallet (higher_row ∷ broadcast_row ∷ []) []))
    ≡ min_nonce (select (is_broadcast_by "wallet") (higher_row ∷ broadcast_row ∷ []))
nonce-lowest_example = nonce-lowest "wallet" (higher_row ∷ broadcast_row ∷ [])

mark_terminal-passed_example :
    ((mark_terminal signed_row filled_result completed calm_env (world_of ready_db)).1.db.payments
      ≡ testnet_row ∷ [])
    × ((mark_terminal signed_row filled_result completed calm_env (world_of ready_db)).1.metrics
        ≡ [])
unfolding payment_row find
mark_terminal-passed_example =
    mark_terminal-passed signed_row filled_result completed calm_env (world_of ready_db) testnet_row
      calm-Quiet refl refl

abbrev all_answer : Answers executor signed_row envelope 0
all_answer = record {
  price = 10;
  signed = _;
  raw = 7 ∷ [];
  tx = sent_tx;
  priced = refl;
  signs = refl;
  encodes = refl;
  decodes = refl;
  unknown = refl;
  accepted = refl;
}

check_and_update_outcome-Unsettled_example :
    ((check_and_update_outcome reconciler signed_row calm_env
        (world_of submitted_db)).1.db.executions
      ≡ signed_row ∷ [])
    × ((check_and_update_outcome reconciler signed_row calm_env
          (world_of submitted_db)).1.db.payments
        ≡ (mark_submitted "pay-1" calm_env (world_of submitted_db)).1.db.payments)
    × ((check_and_update_outcome reconciler signed_row calm_env (world_of submitted_db)).1.metrics
        ≡ [])
check_and_update_outcome-Unsettled_example =
    check_and_update_outcome-Unsettled reconciler signed_row "hash" calm_env (world_of submitted_db)
      calm-Quiet refl (inl refl)
