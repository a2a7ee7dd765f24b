-- ===== src/Worker/Service.antt =====
-- The processor, the recovery, the publisher and the reconciler against the evolution of the database.
use chain_route.Prelude.{ℕ, String, Bool, true, false, Option, none, some, List, [], ◌∷◌, ◌≡◌, refl}
use mathlib.Core.Option
use chain_route.Payment.{
  Status, completed, failed, ExecutionMode, simulated, testnet, Time, Execution, Payment,
  RoutedPayment,
}
use chain_route.Execution.{execute}
use chain_route.Bridge.Quote.{
  ExternalState, pending, filled, refunded, reverted, fill_failed, StatusResult,
}
use chain_route.Store.Create.{create_or_get_payment}
use chain_route.World.{World, Env, Result, ok, err, emit, pure, fail, ◌>>◌, processing_failures}
use chain_route.World.Rules.{
  Keeps-bind, Keeps-pure, Keeps-seq, Keeps-emit, Keeps-attempt, Keeps-result, Keeps-if, Keeps-now,
}
use chain_route.Store.Payments.{complete_payment}
use chain_route.Store.Evolution.{Evolves, Fair, OnDb-relation, is_terminal}
use chain_route.Store.Evolution.Methods.{
  Safe, store_rules, create_or_get_payment-Safe, complete_payment-Safe,
  complete_submitted_payment-Safe,
}
use chain_route.Worker.Executor.Checks.{Executor}
use chain_route.Worker.Executor.{execute_testnet_payment}
use chain_route.Worker.Processor.{
  Processor, terminal_of, count_completion, handle_testnet, handle_simulated, handle_claimed,
  handle_routed_payment,
}
use chain_route.Worker.Recovery.{recover_one, recover_all}
use chain_route.Worker.Recovery as Recovery
use chain_route.Worker.Reconciler.{
  Reconciler, mark_terminal, apply_result, check_destination, check_receipt,
  check_and_update_outcome, recover_stale_processing_without_execution, drive_candidate,
  drive_stale_not_yet_broadcast, check_broadcast_outcomes, origin_reverted, lowest_by_wallet,
}
use chain_route.Worker.Reconciler as Reconciler
use chain_route.Worker.Safety.{execute_testnet_payment-Safe, drive_execution_forward-Safe}

-- The processor of cmd/worker: its executor, if any, is an Executor.
abbrev pub processor_of : Option Executor → Processor
processor_of e = record { executor = Option.map execute_testnet_payment e }

terminal_of-is_terminal : (b : Bool) → is_terminal (terminal_of b) ≡ true
terminal_of-is_terminal true = refl
terminal_of-is_terminal false = refl

complete-Safe : (id : String) (b : Bool) → Safe (complete_payment id (terminal_of b))
complete-Safe id b = complete_payment-Safe id (terminal_of b) (terminal_of-is_terminal b)

handle_testnet-Safe :
    (e : Option Executor) (id : String) → Safe (handle_testnet (processor_of e) id)
unfolding handle_testnet
handle_testnet-Safe none id = search store_rules depth 12
handle_testnet-Safe (some e) id =
    Keeps-bind OnDb-relation _ _ (Keeps-attempt _ (execute_testnet_payment-Safe e id)) (λ r.
      Keeps-seq OnDb-relation _ _ (Keeps-emit OnDb-relation _)
        (Keeps-result r _ _ (λ a. Keeps-pure OnDb-relation tt) (λ x. search store_rules)))

count_completion-Safe : (mode : ExecutionMode) (b : Bool) → Safe (count_completion mode b)
count_completion-Safe mode b = search store_rules

handle_simulated-Safe : (id : String) → Safe (handle_simulated id)
unfolding handle_simulated
handle_simulated-Safe id =
    Keeps-bind OnDb-relation _ _ (Keeps-attempt _ (complete-Safe id (execute id)))
      (λ r. Keeps-seq OnDb-relation _ _ (Keeps-emit OnDb-relation _) (after_completion r))
  where
    after_completion :
        (r : Result (Option Time))
        → Safe (elim r [
          | err x ↦ emit (processing_failures "simulated" "execution_error") >> fail x
          | ok none ↦ pure tt
          | ok (some _) ↦ count_completion simulated (execute id)
        ])
    after_completion (err x) = search store_rules
    after_completion (ok none) = Keeps-pure OnDb-relation tt
    after_completion (ok (some t)) = count_completion-Safe simulated (execute id)

pub handle_claimed-Safe :
    (e : Option Executor) (id : String) (mode : ExecutionMode)
    → Safe (handle_claimed (processor_of e) id mode)
handle_claimed-Safe e id testnet = handle_testnet-Safe e id
handle_claimed-Safe e id simulated = handle_simulated-Safe id

pub handle_routed_payment-Safe :
    (e : Option Executor) (evt : RoutedPayment) → Safe (handle_routed_payment (processor_of e) evt)
unfolding handle_routed_payment
handle_routed_payment-Safe e evt = Keeps-seq OnDb-relation _ _ (Keeps-emit OnDb-relation _) (
    Keeps-bind OnDb-relation _ _ (search store_rules) (elim [
      | none ↦ Keeps-pure OnDb-relation tt
      | some mode ↦ handle_claimed-Safe e evt.payment_id mode
    ]))

recover_one-Safe : (id : String) → Safe (recover_one id)
unfolding recover_one
recover_one-Safe id = Keeps-bind OnDb-relation _ _ (search (store_rules, complete-Safe)) (elim [
  | err x ↦ Keeps-pure OnDb-relation 0
  | ok none ↦ Keeps-pure OnDb-relation 0
  | ok (some t) ↦ search store_rules depth 12
])

recover_all-Safe : (ids : List String) (n : ℕ) → Safe (recover_all ids n)
unfolding recover_all
recover_all-Safe [] n = Keeps-pure OnDb-relation n
recover_all-Safe (id ∷ ids) n =
    Keeps-bind OnDb-relation _ _ (recover_one-Safe id) (λ k. recover_all-Safe ids _)

pub recovery-Safe : (staleness : Time) → Safe (Recovery.sweep_once staleness)
unfolding Recovery.sweep_once
recovery-Safe staleness = search (store_rules, recover_all-Safe)

mark_terminal-Safe :
    (exec : Execution) (result : StatusResult) (terminal : Status)
    → is_terminal terminal ≡ true
    → Safe (mark_terminal exec result terminal)
unfolding mark_terminal
mark_terminal-Safe exec result terminal h =
    Keeps-bind OnDb-relation _ _ (Keeps-now OnDb-relation) (λ t.
      Keeps-seq OnDb-relation _ _ (search store_rules) (
        Keeps-bind OnDb-relation _ _ (complete_submitted_payment-Safe exec.payment_id terminal h)
          (elim [ none ↦ Keeps-pure OnDb-relation tt | some _ ↦ search store_rules depth 12 ])))

apply_result-Safe :
    (exec : Execution) (result : StatusResult) (s : ExternalState)
    → Safe (apply_result exec result s)
unfolding apply_result
apply_result-Safe exec result filled = mark_terminal-Safe exec result completed refl
apply_result-Safe exec result refunded = mark_terminal-Safe exec result failed refl
apply_result-Safe exec result reverted = mark_terminal-Safe exec result failed refl
apply_result-Safe exec result fill_failed = mark_terminal-Safe exec result failed refl
apply_result-Safe exec result pending = Keeps-pure OnDb-relation tt

check_destination-Safe :
    (r : Reconciler) (exec : Execution) (hash : String) → Safe (check_destination r exec hash)
unfolding check_destination
check_destination-Safe r exec hash = Keeps-bind OnDb-relation _ _ (search store_rules) (λ checker.
    Keeps-bind OnDb-relation _ _ (search store_rules) (elim [
      | none ↦ Keeps-pure OnDb-relation tt
      | some result ↦ search (store_rules, apply_result-Safe) depth 12
    ]))

check_receipt-Safe :
    (r : Reconciler) (exec : Execution) (hash : String) (o : Option ℕ)
    → Safe (check_receipt r exec hash o)
unfolding check_receipt
check_receipt-Safe r exec hash none = Keeps-pure OnDb-relation tt
check_receipt-Safe r exec hash (some s) =
    Keeps-if _ _ _ (mark_terminal-Safe exec origin_reverted failed refl)
      (check_destination-Safe r exec hash)

check_and_update_outcome-Safe :
    (r : Reconciler) (exec : Execution) → Safe (check_and_update_outcome r exec)
unfolding check_and_update_outcome
check_and_update_outcome-Safe r exec = search (store_rules, check_receipt-Safe) depth 12

recover_stale-Safe : (r : Reconciler) → Safe (recover_stale_processing_without_execution r)
unfolding recover_stale_processing_without_execution
recover_stale-Safe r = search (store_rules, execute_testnet_payment-Safe) depth 12

drive_candidate-Safe : (r : Reconciler) (c : Execution) → Safe (drive_candidate r c)
unfolding drive_candidate
drive_candidate-Safe r c = Keeps-if _ _ _ (Keeps-pure OnDb-relation tt) (
    Keeps-bind OnDb-relation _ _ (search store_rules) (elim [
      | none ↦ Keeps-pure OnDb-relation tt
      | some fresh ↦ search (store_rules, drive_execution_forward-Safe)
    ]))

drive_stale-Safe : (r : Reconciler) → Safe (drive_stale_not_yet_broadcast r)
unfolding drive_stale_not_yet_broadcast
drive_stale-Safe r = search (store_rules, drive_candidate-Safe)

check_outcomes-Safe : (r : Reconciler) → Safe (check_broadcast_outcomes r)
unfolding check_broadcast_outcomes
check_outcomes-Safe r = search (store_rules, check_and_update_outcome-Safe)

pub reconciler-Safe : (r : Reconciler) → Safe (Reconciler.sweep_once r)
unfolding Reconciler.sweep_once
reconciler-Safe r =
    search (store_rules, recover_stale-Safe, drive_stale-Safe, check_outcomes-Safe) depth 12

-- HandleRoutedPayment, on every path and with every fault: the database evolves, if whatever other
-- actors commit meanwhile is an evolution.
pub handle_routed_payment-Evolves :
    (e : Option Executor) (evt : RoutedPayment) (env : Env) (w : World)
    → Fair env
    → Evolves w.db (handle_routed_payment (processor_of e) evt env w).1.db
handle_routed_payment-Evolves e evt env w fair =
    ((handle_routed_payment-Safe e evt).at env fair w).evolves

-- SweepOnce of the reconciler, on every path and with every fault: the database evolves, if whatever
-- other actors commit meanwhile is an evolution.
pub reconciler-Evolves :
    (r : Reconciler) (env : Env) (w : World)
    → Fair env
    → Evolves w.db (Reconciler.sweep_once r env w).1.db
reconciler-Evolves r env w fair = ((reconciler-Safe r).at env fair w).evolves

-- SweepOnce of the recovery, on every path and with every fault: the database evolves, if whatever
-- other actors commit meanwhile is an evolution.
pub recovery-Evolves :
    (staleness : Time) (env : Env) (w : World)
    → Fair env
    → Evolves w.db (Recovery.sweep_once staleness env w).1.db
recovery-Evolves staleness env w fair = ((recovery-Safe staleness).at env fair w).evolves

-- CreateOrGetPayment, on every path and with every fault: the database evolves, if whatever other
-- actors commit meanwhile is an evolution.
pub create_or_get_payment-Evolves :
    (p : Payment) (env : Env) (w : World)
    → Fair env
    → Evolves w.db (create_or_get_payment p env w).1.db
create_or_get_payment-Evolves p env w fair = ((create_or_get_payment-Safe p).at env fair w).evolves
