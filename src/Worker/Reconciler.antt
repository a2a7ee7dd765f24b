-- ===== src/Worker/Reconciler.antt =====
-- reconciler.go: what happened outside. A sweep recovers payments without an execution row, drives
-- rows that were not broadcast, and asks for the outcome of those that were.
use chain_route.Prelude.{
  ℕ, String, Bool, false, Option, none, some, List, [], ◌∷◌, ◌==◌, eqb, ltb, if◌then◌else◌, is_some,
}
use chain_route.Payment.{status_eq, Status, Time, Execution, ExternalStatus, testnet}
use chain_route.Bridge.Quote.{
  ExternalState, pending, filled, refunded, reverted, fill_failed, StatusResult, StatusChecker,
}
use chain_route.World.{
  M, pure, or_fail, attempt, external, now, emit, ◌>>=◌, ◌>>◌, for_each, not_signed,
  checker_not_configured, payments_completed, payments_failed, payment_duration,
  executions_completed, executions_failed, reconciliations, reconciliation_duration,
  stale_recoveries,
}
use chain_route.Store.Payments.{
  mark_submitted, complete_submitted_payment, stale_testnet_processing_without_execution_ids,
}
use chain_route.Store.Executions.{
  get_execution_by_payment_id, reconciliation_candidates, update_execution_external_status,
  lowest_unconfirmed_nonce,
}
use chain_route.Worker.Clients.{EthClient, sanitize_provider_label}
use chain_route.Worker.Executor.{execute_testnet_payment, drive_execution_forward}
use chain_route.Worker.Executor.Checks.{Executor}

pub record Reconciler : Type 0 where
  pub executor : Executor
  pub origin_client : EthClient
  pub status_checkers : String → Option StatusChecker
  pub wallet_address : String
  pub staleness : Time
  pub map_order : ℕ → List Execution → List Execution  -- the order in which a map is visited

unfoldable pub external_state_to_status : ExternalState → ExternalStatus
external_state_to_status filled = ExternalStatus.filled
external_state_to_status refunded = ExternalStatus.refunded
external_state_to_status reverted = ExternalStatus.reverted
external_state_to_status fill_failed = ExternalStatus.fill_failed
external_state_to_status _ = ExternalStatus.pending

-- The metrics of a transition that this call made.
abbrev pub count_terminal : String → Status → M (Unit {0})
count_terminal label terminal =
    emit (
      if status_eq terminal Status.failed
      then executions_failed label "reconciled_failed"
      else executions_completed label)
    >> emit (
        payment_duration testnet
          (if status_eq terminal Status.failed then "failed" else "completed"))
    >> emit (
        if status_eq terminal Status.completed
        then payments_completed testnet
        else payments_failed testnet "reconciliation")

unfoldable pub mark_terminal : Execution → StatusResult → Status → M (Unit {0})
mark_terminal exec result terminal = do
  let label = sanitize_provider_label exec.bridge_provider
  t ← now
  update_execution_external_status exec.id (external_state_to_status result.state) result.raw_status
      (some t)
  completed ← complete_submitted_payment exec.payment_id terminal
  elim completed [ none ↦ pure tt | some _ ↦ count_terminal label terminal ]

abbrev pub origin_reverted : StatusResult
origin_reverted = record {
  state = reverted;
  raw_status = "origin_reverted";
  destination_tx_hash = none;
}

-- The switch on the checker's answer.
unfoldable pub apply_result : Execution → StatusResult → ExternalState → M (Unit {0})
apply_result exec result filled = mark_terminal exec result Status.completed
apply_result exec result refunded = mark_terminal exec result Status.failed
apply_result exec result reverted = mark_terminal exec result Status.failed
apply_result exec result fill_failed = mark_terminal exec result Status.failed
apply_result exec result pending = pure tt

abbrev pub deref_or_empty : Option String → String
deref_or_empty none = ""
deref_or_empty (some s) = s

-- The origin transaction is mined and did not revert: ask the provider.
unfoldable pub check_destination : Reconciler → Execution → String → M (Unit {0})
unfolding apply_result
check_destination r exec hash = do
  let label = sanitize_provider_label exec.bridge_provider
  checker ← or_fail (r.status_checkers exec.bridge_provider) checker_not_configured
  answered ← external (λ n. checker.check_status n (record {
    provider_reference_id = deref_or_empty exec.provider_reference_id;
    origin_tx_hash = hash;
  }))
  elim answered [
    | none ↦ pure tt
    | some result ↦
        emit (reconciliations label)
        >> emit (reconciliation_duration label)
        >> apply_result exec result result.state
  ]

-- The receipt's status: none yet, 0 for a revert, or mined.
unfoldable pub check_receipt : Reconciler → Execution → String → Option ℕ → M (Unit {0})
check_receipt r exec hash none = pure tt
check_receipt r exec hash (some s) =
    if eqb s 0
    then mark_terminal exec origin_reverted Status.failed
    else check_destination r exec hash

unfoldable pub check_and_update_outcome : Reconciler → Execution → M (Unit {0})
unfolding check_receipt
check_and_update_outcome r exec = do
  hash ← or_fail exec.signed_tx_hash not_signed
  mark_submitted exec.payment_id
  receipt ← external (λ n. r.origin_client.receipt_status n (r.executor.codec.hex_to_hash hash))
  check_receipt r exec hash receipt

-- Crash point A: PROCESSING with no execution row.
unfoldable pub recover_stale_processing_without_execution : Reconciler → M (Unit {0})
recover_stale_processing_without_execution r = do
  ids ← stale_testnet_processing_without_execution_ids r.staleness
  for_each (λ id. execute_testnet_payment r.executor id >> emit (stale_recoveries "reconciler")) ids

-- The row again, just before it is driven; another actor may have finished it meanwhile.
unfoldable pub drive_candidate : Reconciler → Execution → M (Unit {0})
drive_candidate r c =
    if is_some c.broadcast_at
    then pure tt
    else (get_execution_by_payment_id c.payment_id >>= λ found. elim found [
      | none ↦ pure tt
      | some fresh ↦
          if is_some fresh.broadcast_at then pure tt else drive_execution_forward r.executor fresh
    ])

-- Crash points B and C: a row that was not broadcast.
unfoldable pub drive_stale_not_yet_broadcast : Reconciler → M (Unit {0})
drive_stale_not_yet_broadcast r = do
  candidates ← reconciliation_candidates r.staleness
  for_each (drive_candidate r) candidates

-- lowestByWallet, as a list with one row for each wallet.
unfoldable pub keep_lowest : Execution → List Execution → List Execution
keep_lowest c [] = c ∷ []
keep_lowest c (e ∷ es) =
    if e.wallet_address == c.wallet_address
    then (if ltb c.nonce e.nonce then c ∷ es else e ∷ es)
    else e ∷ keep_lowest c es

unfoldable pub lowest_by_wallet : List Execution → List Execution → List Execution
unfolding keep_lowest
lowest_by_wallet [] acc = acc
lowest_by_wallet (c ∷ cs) acc =
    lowest_by_wallet cs (if is_some c.broadcast_at then keep_lowest c acc else acc)

unfoldable pub check_broadcast_outcomes : Reconciler → M (Unit {0})
unfolding lowest_by_wallet
check_broadcast_outcomes r = do
  candidates ← reconciliation_candidates r.staleness
  visited ← external (λ n. r.map_order n (lowest_by_wallet candidates []))
  for_each (check_and_update_outcome r) visited

-- An error of one phase is logged there, and the next phase runs.
unfoldable pub sweep_once : Reconciler → M (Unit {0})
sweep_once r = do
  attempt (recover_stale_processing_without_execution r)
  attempt (drive_stale_not_yet_broadcast r)
  attempt (check_broadcast_outcomes r)
  pure tt

abbrev behind : ℕ → Option ℕ → Bool
behind chain_pending none = false
behind chain_pending (some lowest) = ltb chain_pending lowest

-- `true` is the warning; an error of either read is a warning of another kind.
unfoldable pub check_nonce_divergence : Reconciler → M Bool
check_nonce_divergence r = do
  answered ← external (λ n. r.origin_client.pending_nonce_at n r.wallet_address)
  elim answered [
    | none ↦ pure false
    | some chain_pending ↦ do
      lowest ← lowest_unconfirmed_nonce r.wallet_address
      pure (behind chain_pending lowest)
  ]
