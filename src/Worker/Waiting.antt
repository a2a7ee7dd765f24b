-- ===== src/Worker/Waiting.antt =====
-- reconciler.go, checkAndUpdateOutcome: answers that settle nothing.
use chain_route.Prelude.{ℕ, suc, String, none, some, ◌≡◌, arith, ◌⊎◌, inl, inr}
use chain_route.Payment.{Execution}
use chain_route.Bridge.Quote.{StatusChecker, StatusRequest}
use chain_route.World.{World, Env, monad}
use chain_route.Store.Payments.{submit_stmt, mark_submitted, transition}
use chain_route.Worker.Reconciler.{
  Reconciler, check_destination, check_receipt, check_and_update_outcome, deref_or_empty,
}
use chain_route.Worker.Checked.{Quiet}
use chain_route.Worker.Fresh.{fault-cases}

-- What the provider is asked about an execution.
abbrev pub status_request : Execution → String → StatusRequest
status_request exec hash = record {
  provider_reference_id = deref_or_empty exec.provider_reference_id;
  origin_tx_hash = hash;
}

-- No receipt yet, or a receipt that is no revert and a status checker that returns an error.
abbrev pub Unsettled : Reconciler → Execution → String → ℕ → Type 0
Unsettled r exec hash n =
    (r.origin_client.receipt_status n (r.executor.codec.hex_to_hash hash) ≡ none)
    ⊎ ((s : ℕ) × (checker : StatusChecker) × (r.origin_client.receipt_status n
            (r.executor.codec.hex_to_hash hash)
          ≡ some (suc s))
        × (r.status_checkers exec.bridge_provider ≡ some checker)
        × (checker.check_status (suc n) (status_request exec hash) ≡ none))

-- While the chain has no receipt, or the provider gives no answer, checkAndUpdateOutcome changes no
-- execution, records no metric, and touches the payments only as the repair to SUBMITTED does, where
-- no other actor writes meanwhile.
pub check_and_update_outcome-Unsettled :
    (r : Reconciler) (exec : Execution) (hash : String) (env : Env) (w : World)
    → Quiet env
    → exec.signed_tx_hash ≡ some hash
    → Unsettled r exec hash (suc w.tick)
    → ((check_and_update_outcome r exec env w).1.db.executions ≡ w.db.executions)
      × ((check_and_update_outcome r exec env w).1.db.payments
          ≡ (mark_submitted exec.payment_id env w).1.db.payments)
      × ((check_and_update_outcome r exec env w).1.metrics ≡ w.metrics)
unfolding check_and_update_outcome check_receipt check_destination mark_submitted submit_stmt
    transition monad
check_and_update_outcome-Unsettled r exec hash env w quiet signed (inl waiting) =
    elim (fault-cases (env.fault w.tick)) [
      | inl x ↦ ground (arith, quiet.still w.tick w.db)
      | inr (inl x) ↦ ground (arith, quiet.still w.tick w.db)
      | inr (inr x) ↦ ground (arith, quiet.still w.tick w.db)
    ]
check_and_update_outcome-Unsettled r exec hash env w quiet signed
      (inr (s, checker, mined, found, silent)) =
    elim (fault-cases (env.fault w.tick)) [
      | inl x ↦ ground (arith, quiet.still w.tick w.db)
      | inr (inl x) ↦ ground (arith, quiet.still w.tick w.db)
      | inr (inr x) ↦ ground (arith, quiet.still w.tick w.db)
    ]
