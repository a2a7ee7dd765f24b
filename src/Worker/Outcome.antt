-- ===== src/Worker/Outcome.antt =====
-- reconciler.go, markTerminal: the end of a submitted payment, once.
use chain_route.Prelude.{suc, false, some, ◌≡◌, arith, inl, inr}
use chain_route.Payment.{Status, submitted, Execution, status_eq}
use chain_route.Bridge.Quote.{StatusResult}
use chain_route.Db.{Db, PaymentRow}
use chain_route.World.{World, Env, monad}
use chain_route.Store.Payments.{
  payment_row, complete_row, complete_submitted_stmt, complete_submitted_payment,
}
use chain_route.Store.Executions.{outcome_stmt, update_execution_external_status, update_execution}
use chain_route.Store.Once.{transition-passed}
use chain_route.Worker.Reconciler.{mark_terminal, external_state_to_status}
use chain_route.Worker.Checked.{Quiet}
use chain_route.Worker.Fresh.{fault-cases}

-- The database once the outcome is in the execution's row.
abbrev recorded : Execution → StatusResult → Env → World → Db
recorded exec result env w =
    (outcome_stmt exec.id (external_state_to_status result.state) result.raw_status
      (some (env.clock w.tick)) env (suc w.tick) w.db).1

-- markTerminal of a payment that is not SUBMITTED, where no other actor writes meanwhile: no payment
-- is changed and no metric is recorded, whatever fails.
pub mark_terminal-passed :
    (exec : Execution) (result : StatusResult) (terminal : Status) (env : Env) (w : World)
    (row : PaymentRow)
    → Quiet env
    → payment_row exec.payment_id w.db ≡ some row
    → status_eq row.status submitted ≡ false
    → ((mark_terminal exec result terminal env w).1.db.payments ≡ w.db.payments)
      × ((mark_terminal exec result terminal env w).1.metrics ≡ w.metrics)
unfolding mark_terminal update_execution_external_status outcome_stmt update_execution
    complete_submitted_payment complete_submitted_stmt payment_row monad
mark_terminal-passed exec result terminal env w row quiet found past =
    let t = complete_row (env.clock (suc (suc w.tick))) terminal in
    let after = recorded exec result env w in
    let missed = transition-passed exec.payment_id submitted t after row found past in
    let still = quiet.still (suc w.tick) w.db in
    elim (fault-cases (env.fault (suc w.tick))) [
      | inr (inl x) ↦ ground (arith, still)
      | inr (inr x) ↦ ground (arith, still)
      | inl x ↦ elim (fault-cases (env.fault (suc (suc w.tick)))) [
        | inr (inl y) ↦ ground (arith, still, quiet.still (suc (suc w.tick)) after)
        | inr (inr y) ↦ ground (arith, still, quiet.still (suc (suc w.tick)) after, missed)
        | inl y ↦ ground (arith, still, quiet.still (suc (suc w.tick)) after, missed)
      ]
    ]
